-- ===== src/Auction/Indices.antt =====
-- Lists of campaign indices: membership as a test, and lists without repetition.
use guidance_for_building_a.Common.{
  ℕ, get_elem?, some, ==_self, ◌≡◌, refl, List, [], ◌∷◌, ◌++◌, Bool, true, false, ◌||◌, ◌==◌,
  ==_iff, All, Bool-cases, inl, inr, subst, arith,
}

unfoldable pub contains : ℕ → List ℕ → Bool
contains i [] = false
contains i (x ∷ xs) = x == i || contains i xs

abbrev pub Distinct : List ℕ → Type 0
Distinct [] = Unit {0}
Distinct (x ∷ xs) = (contains x xs ≡ false) × Distinct xs

pub contains-append :
    (i : ℕ) (xs ys : List ℕ) → contains i (xs ++ ys) ≡ (contains i xs || contains i ys)
unfolding contains
contains-append i [] ys = refl
contains-append i (x ∷ xs) ys = ground (arith, contains-append i xs ys)

pub contains-snoc :
    (i : ℕ) (xs : List ℕ) (y : ℕ) → contains i (xs ++ y ∷ []) ≡ (contains i xs || y == i)
unfolding contains
contains-snoc i [] y = ground arith
contains-snoc i (x ∷ xs) y = ground (arith, contains-snoc i xs y)

pub Distinct-snoc :
    (xs : List ℕ) (y : ℕ) → Distinct xs → contains y xs ≡ false → Distinct (xs ++ y ∷ [])
unfolding contains
Distinct-snoc [] y d h = (refl, tt)
Distinct-snoc (x ∷ xs) y d h =
    (ground (arith, contains-snoc x xs y, d.0), Distinct-snoc xs y d.1 (ground arith))

-- What holds of all holds of each.
pub All-contains : (P : ℕ → Type 0) (xs : List ℕ) (i : ℕ) → All P xs → contains i xs ≡ true → P i
unfolding contains
All-contains P [] i h e = cc
All-contains P (x ∷ xs) i h e = elim (Bool-cases (x == i)) [
  | inl eq ↦ subst P ((==_iff x i).0 eq) h.0
  | inr ne ↦ All-contains P xs i h.1 (ground arith)
]

pub contains-apart :
    (i j : ℕ) (xs : List ℕ) → contains i xs ≡ false → contains j xs ≡ true → (i == j) ≡ false
contains-apart i j xs hi hj = elim (Bool-cases (i == j)) [
  | inl e ↦ let h : contains j xs ≡ false = rw ((==_iff i j).0 e) at hi in cc (h, hj)
  | inr e ↦ e
]

pub contains-get_elem? :
    (xs : List ℕ) (k : ℕ) {i : ℕ} → get_elem? xs k ≡ some i → contains i xs ≡ true
unfolding contains
contains-get_elem? [] k e = cc e
contains-get_elem? (x ∷ xs) ℕ.zero {i} e = let same : x ≡ i = cc e in rw (same, ==_self i) refl
contains-get_elem? (x ∷ xs) (ℕ.suc k) e = ground (arith, contains-get_elem? xs k e)
