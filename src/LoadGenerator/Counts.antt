-- ===== src/LoadGenerator/Counts.antt =====
-- A map from status codes to counts, as an association list without repeated keys.
use guidance_for_building_a.Common.{
  ℕ, ◌≡◌, refl, List, [], ◌∷◌, false, ◌==◌, ==_iff, if◌then◌else◌, Bool-cases, inl, inr, arith,
}
use guidance_for_building_a.Common.Int64.{IsInt64, add64}

abbrev pub Counts : Type 0
Counts = List (ℕ × ℕ)

-- `m[k]`, which is 0 for a missing key
unfoldable pub count_of : ℕ → Counts → ℕ
count_of k [] = 0
count_of k ((j, n) ∷ m) = if j == k then n else count_of k m

-- `m[k] += n`
unfoldable pub increase : ℕ → ℕ → Counts → Counts
increase k n [] = (k, add64 0 n) ∷ []
increase k n ((j, p) ∷ m) = if j == k then (j, add64 p n) ∷ m else (j, p) ∷ increase k n m

-- `for k, v := range other { m[k] += v }`
unfoldable pub increase_all : Counts → Counts → Counts
increase_all [] m = m
increase_all ((k, n) ∷ other) m = increase_all other (increase k n m)

abbrev pub IsMissing : ℕ → Counts → Type 0
IsMissing k [] = Unit {0}
IsMissing k ((j, n) ∷ m) = ((j == k) ≡ false) × IsMissing k m

-- No key is repeated.
abbrev pub IsMap : Counts → Type 0
IsMap [] = Unit {0}
IsMap ((k, n) ∷ m) = IsMissing k m × IsMap m

count_of-IsMissing : (k : ℕ) (m : Counts) → IsMissing k m → count_of k m ≡ 0
unfolding count_of
count_of-IsMissing k [] h = refl
count_of-IsMissing k ((j, n) ∷ m) h = ground (arith, h.0, count_of-IsMissing k m h.1)

pub count_of-increase :
    (j k n : ℕ) (m : Counts)
    → count_of j (increase k n m) ≡ (if k == j then add64 (count_of j m) n else count_of j m)
unfolding count_of increase
count_of-increase j k n [] = ground arith
count_of-increase j k n ((i, p) ∷ m) = ground (arith, count_of-increase j k n m)

increase-IsMissing :
    (j k n : ℕ) (m : Counts) → IsMissing j m → (k == j) ≡ false → IsMissing j (increase k n m)
unfolding increase
increase-IsMissing j k n [] h ne = (ne, tt)
increase-IsMissing j k n ((i, p) ∷ m) h ne = elim (Bool-cases (i == k)) [
  | inl e ↦ rw e h
  | inr e ↦ rw e (h.0, increase-IsMissing j k n m h.1 ne)
]

pub increase-IsMap : (k n : ℕ) (m : Counts) → IsMap m → IsMap (increase k n m)
unfolding increase
increase-IsMap k n [] h = (tt, tt)
increase-IsMap k n ((i, p) ∷ m) h = elim (Bool-cases (i == k)) [
  | inl e ↦ rw e h
  | inr e ↦ rw e (increase-IsMissing i k n m h.0 (ground arith), increase-IsMap k n m h.1)
]

pub increase_all-IsMap : (other m : Counts) → IsMap m → IsMap (increase_all other m)
unfolding increase_all count_of
increase_all-IsMap [] m h = h
increase_all-IsMap ((k, n) ∷ other) m h =
    increase_all-IsMap other (increase k n m) (increase-IsMap k n m h)

pub count_of-increase_all :
    (j : ℕ) (other m : Counts)
    → IsMap other
    → IsInt64 (count_of j m)
    → count_of j (increase_all other m) ≡ add64 (count_of j m) (count_of j other)
unfolding increase_all count_of add64
count_of-increase_all j [] m h w = omega (arith, w)
count_of-increase_all j ((k, n) ∷ other) m h w =
    let one = count_of-increase j k n m in
    let rest = count_of-increase_all j other (increase k n m) h.1 (ground (arith, one, w)) in
    elim (Bool-cases (k == j)) [
      | inl e ↦
          let same : k ≡ j = (==_iff k j).0 e in
          let missing : count_of k other ≡ 0 = count_of-IsMissing k other h.0 in
          ground (arith, rest, one, missing, w)
      | inr e ↦ ground (arith, rest, one, w)
    ]
