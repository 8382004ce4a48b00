-- ===== src/Id.antt =====
-- Identifiers of database items: apps/bidder/code/id/id.go. A map with identifiers for keys is an
-- association list without repeated keys.
pub mod Hex
use guidance_for_building_a.Common.{
  ℕ, ◌+◌, ◌*◌, ◌/◌, ◌%◌, ◌≡◌, ◌≢◌, ◌↔◌, refl, List, [], ◌∷◌, Option, none, some, Bool, true, false,
  ◌&&◌, ◌==◌, if◌then◌else◌, copy, replicate, map, length, length-copy, length-replicate, arith,
  ◌∙◌, ==_iff,
}

-- `Len`
abbrev pub len : ℕ
len = 16

-- `[Len]byte`: the functions below make them of this length.
abbrev pub ItemId : Type 0
ItemId = List ℕ

abbrev pub zero_id : ItemId
zero_id = replicate len 0

-- `FromByteSlice`
unfoldable pub from_byte_slice : List ℕ → ItemId
from_byte_slice b = copy zero_id b

-- `FromByteSlices`
unfoldable pub from_byte_slices : List (List ℕ) → List ItemId
unfolding from_byte_slice
from_byte_slices bs = map from_byte_slice bs

-- An identifier has 16 bytes whatever it is made from.
pub length-from_byte_slice : (b : List ℕ) → length (from_byte_slice b) ≡ len
unfolding from_byte_slice
length-from_byte_slice b = length-copy zero_id b

-- `==` of arrays of bytes
unfoldable pub same : ItemId → ItemId → Bool
same [] [] = true
same [] (y ∷ ys) = false
same (x ∷ xs) [] = false
same (x ∷ xs) (y ∷ ys) = x == y && same xs ys

pub same_iff : (a b : ItemId) → (same a b ≡ true) ↔ (a ≡ b)
unfolding same
same_iff [] [] = (λ _. refl, λ _. refl)
same_iff [] (y ∷ ys) = (λ e. cc, λ e. cc)
same_iff (x ∷ xs) [] = (λ e. cc, λ e. cc)
same_iff (x ∷ xs) (y ∷ ys) = ground (arith, same_iff xs ys)

pub same_self : (a : ItemId) → same a a ≡ true
same_self a = (same_iff a a).1 refl

module _ {ℓ} {V : Type ℓ} where
  unfoldable pub lookup : ItemId → List (ItemId × V) → Option V
  lookup k [] = none
  lookup k ((j, v) ∷ m) = if same j k then some v else lookup k m

  -- `m[k] = v`
  unfoldable pub insert : ItemId → V → List (ItemId × V) → List (ItemId × V)
  insert k v [] = (k, v) ∷ []
  insert k v ((j, w) ∷ m) = if same j k then (k, v) ∷ m else (j, w) ∷ insert k v m

  pub lookup-insert :
      (k j : ItemId) (v : V) (m : List (ItemId × V))
      → lookup j (insert k v m) ≡ (if same k j then some v else lookup j m)
  unfolding lookup insert
  lookup-insert k j v [] = refl
  lookup-insert k j v ((i, w) ∷ m) =
      ground (arith, same_iff k j, same_iff i k, same_iff i j, lookup-insert k j v m)
