-- ===== src/Auction/Candidates/Listing.antt =====
-- The campaigns that audiences target, and the same without repetitions.
use guidance_for_building_a.Common.{
  ℕ, ◌<◌, ◌≡◌, refl, List, [], ◌∷◌, ◌++◌, true, All, All-append, ◌==◌, ==_iff, if◌then◌else◌, ◌||◌,
  Bool-cases, inl, inr, arith,
}
use guidance_for_building_a.Id.{ItemId}
use guidance_for_building_a.Cache.Audiences
use guidance_for_building_a.Cache.Audiences.{AudienceCache}
use guidance_for_building_a.Auction.Indices.{contains, Distinct, contains-snoc, Distinct-snoc}

-- The reference: each index where it first occurs.
unfoldable pub unique : List ℕ → List ℕ → List ℕ
unique acc [] = acc
unique acc (x ∷ xs) = unique (if contains x acc then acc else acc ++ x ∷ []) xs

-- All campaigns of the audiences, repetitions included.
unfoldable pub targeting : AudienceCache → List ItemId → List ℕ
targeting audience [] = []
targeting audience (a ∷ rest) = Audiences.get audience a ++ targeting audience rest

-- All targets are in range.
unfoldable pub InRange : ℕ → AudienceCache → List ItemId → Type 0
InRange size audience [] = Unit {0}
InRange size audience (a ∷ rest) =
    All (λ c. c < size) (Audiences.get audience a) × InRange size audience rest

pub unique-append : (xs acc ys : List ℕ) → unique acc (xs ++ ys) ≡ unique (unique acc xs) ys
unfolding unique
unique-append [] acc ys = refl
unique-append (x ∷ xs) acc ys = unique-append xs _ ys

-- The result has no repetition, and the members of the argument.
pub unique-Distinct : (xs acc : List ℕ) → Distinct acc → Distinct (unique acc xs)
unfolding unique
unique-Distinct [] acc d = d
unique-Distinct (x ∷ xs) acc d = unique-Distinct xs _ (elim (Bool-cases (contains x acc)) [
  | inl seen ↦ rw seen d
  | inr new ↦ rw new (Distinct-snoc acc x d new)
])

same_seen :
    (i x : ℕ) (acc xs : List ℕ)
    → contains x acc ≡ true
    → (contains i acc || contains i xs) ≡ (contains i acc || (x == i || contains i xs))
same_seen i x acc xs seen = elim (Bool-cases (x == i)) [
  | inl e ↦ let e' : contains i acc ≡ true = rw ((==_iff x i).0 e) at seen in rw (e, e') refl
  | inr e ↦ rw e refl
]

pub contains-unique :
    (i : ℕ) (xs acc : List ℕ) → contains i (unique acc xs) ≡ (contains i acc || contains i xs)
unfolding unique contains
contains-unique i [] acc = ground arith
contains-unique i (x ∷ xs) acc = elim (Bool-cases (contains x acc)) [
  | inl seen ↦ rw (seen, contains-unique i xs acc) (same_seen i x acc xs seen)
  | inr new ↦ rw (new, contains-unique i xs (acc ++ x ∷ []), contains-snoc i acc x) (ground arith)
]

pub unique-All : (P : ℕ → Type 0) (xs acc : List ℕ) → All P acc → All P xs → All P (unique acc xs)
unfolding unique
unique-All P [] acc h h' = h
unique-All P (x ∷ xs) acc h h' =
    unique-All P xs _
      (elim (Bool-cases (contains x acc)) [
        | inl seen ↦ rw seen h
        | inr new ↦ rw new (All-append P acc (x ∷ []) h (h'.0, tt))
      ])
      h'.1

pub InRange-targeting :
    (size : ℕ) (audience : AudienceCache) (ids : List ItemId)
    → InRange size audience ids
    → All (λ c. c < size) (targeting audience ids)
unfolding InRange targeting
InRange-targeting size audience [] h = tt
InRange-targeting size audience (a ∷ ids) h =
    All-append (λ c. c < size) (Audiences.get audience a) _ h.0
      (InRange-targeting size audience ids h.1)
