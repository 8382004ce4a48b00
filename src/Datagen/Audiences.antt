-- ===== src/Datagen/Audiences.antt =====
-- The audiences of a device or a campaign: `AudiencesConcat` and `AudiencesSlice` of
-- tools/datagen/pkg/generator/audience.go. `none` is the panic of a division by zero.
pub mod Keys
use guidance_for_building_a.Common.{
  ℕ, zero, suc, ◌+◌, ◌%◌, List, [], ◌∷◌, ◌++◌, Option, none, some, ◌==◌, if◌then◌else◌, ◌>>=◌,
}
use guidance_for_building_a.Common.Int64.{add64, sub64}
use guidance_for_building_a.Id.{ItemId}
use guidance_for_building_a.Datagen.Config.{Config}
use guidance_for_building_a.Datagen.Encryptor.{Cipher, encrypt}

-- `a % b` of unsigned numbers
unfoldable pub modulo : ℕ → ℕ → Option ℕ
modulo a b = if b == 0 then none else some (a % b)

-- `n`
unfoldable pub audience_count : Config → ℕ → Option ℕ
audience_count cfg seed = do
  r ← modulo seed (add64 (sub64 cfg.max_audiences cfg.min_audiences) 1)
  some (add64 r cfg.min_audiences)

-- `((seed + i) % cfg.MaxAudienceID) + 1`
unfoldable pub audience_number : Config → ℕ → ℕ → Option ℕ
audience_number cfg seed i = do r ← modulo (add64 seed i) cfg.max_audience_id; some (add64 r 1)

module _ (c : Cipher) (cfg : Config) (seed : ℕ) where
  -- The rounds from `i` on.
  unfoldable pub concat_from : ℕ → ℕ → List ℕ → Option (List ℕ)
  concat_from zero i a = some a
  concat_from (suc n) i a = do
    k ← audience_number cfg seed i
    concat_from n (i + 1) (a ++ encrypt c k)

  -- `AudiencesConcat`
  unfoldable pub audiences_concat : Option (List ℕ)
  audiences_concat = do n ← audience_count cfg seed; concat_from n 0 []

  unfoldable pub slice_from : ℕ → ℕ → Option (List ItemId)
  slice_from zero i = some []
  slice_from (suc n) i = do
    k ← audience_number cfg seed i
    rest ← slice_from n (i + 1)
    some (encrypt c k ∷ rest)

  -- `AudiencesSlice`
  unfoldable pub audiences_slice : Option (List ItemId)
  audiences_slice = do n ← audience_count cfg seed; slice_from n 0
