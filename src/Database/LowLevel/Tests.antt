-- ===== src/Database/LowLevel/Tests.antt =====
-- A device with one audience.
use guidance_for_building_a.Common.{
  ℕ, zero, suc, ◌+◌, ◌*◌, ◌/◌, ◌%◌, ◌-◌, ◌≡◌, refl, ap, List, [], ◌∷◌, ◌++◌, Option, none, some,
  length, length-append, length-replicate, replicate, ◌==◌, if◌then◌else◌, arith,
}
use guidance_for_building_a.Id.{ItemId}
use guidance_for_building_a.Api.{other}
use guidance_for_building_a.Database.Devices.{concat}
use guidance_for_building_a.Database.LowLevel.{Base64, Body, answered, get_device}
use guidance_for_building_a.Database.LowLevel.Surplus.{IsBase64, get_device-surplus}

-- An encoding as long as base64.
abbrev marked : List ℕ → List ℕ
marked [] = []
marked (b ∷ bs) = suc b ∷ marked bs

abbrev encode : List ℕ → List ℕ
encode bytes = marked bytes ++ replicate ((length bytes + 2) / 3 * 4 - length bytes) 0

abbrev bytes_of : List ℕ → List ℕ
bytes_of [] = []
bytes_of (zero ∷ cs) = []
bytes_of (suc b ∷ cs) = b ∷ bytes_of cs

abbrev base64 : Base64
base64 = record { encode = encode; decode = λ text. (bytes_of text, none) }

bytes_of-marked : (bytes : List ℕ) (n : ℕ) → bytes_of (marked bytes ++ replicate n 0) ≡ bytes
bytes_of-marked [] zero = refl
bytes_of-marked [] (suc n) = refl
bytes_of-marked (b ∷ bs) n = ap (◌∷◌ b) (bytes_of-marked bs n)

length-marked : (bytes : List ℕ) → length (marked bytes) ≡ length bytes
length-marked [] = refl
length-marked (b ∷ bs) = ap suc (length-marked bs)

base64-IsBase64 : IsBase64 base64
base64-IsBase64 = record {
  round = λ bytes.
      ap (λ bs. (bs, none)) (bytes_of-marked bytes ((length bytes + 2) / 3 * 4 - length bytes));
  encoded_length = λ bytes.
      let n = (length bytes + 2) / 3 * 4 - length bytes in
      omega (
        arith,
        length-append (marked bytes) (replicate n 0),
        length-marked bytes,
        length-replicate {A = ℕ} n 0,
      );
}

abbrev audience : ItemId
audience = replicate 16 5

abbrev parse : List ℕ → Option Body
parse body = some (record { message = none; audiences = some (encode (concat (audience ∷ []))) })

get_device-surplus_example :
    (more : List ItemId) × ((get_device base64
        (λ m. other 1)
        parse
        (other 2)
        (answered (3 ∷ []))
        []
        []).0
      ≡ ([] ++ ((audience ∷ []) ++ more), none))
    × (length more ≡ (if length (audience ∷ []) % 3 == 0 then 0 else 1))
get_device-surplus_example =
    get_device-surplus base64 base64-IsBase64 (λ m. other 1) parse (other 2) (3 ∷ []) []
      (audience ∷ []) [] (refl, tt) refl
