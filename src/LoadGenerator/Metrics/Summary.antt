-- ===== src/LoadGenerator/Metrics/Summary.antt =====
-- What a list of results comes to, and the laws of it for two lists together.
use guidance_for_building_a.Common.{
  ℕ, ◌+◌, ◌^◌, ◌<◌, ◌≡◌, refl, List, [], ◌∷◌, ◌++◌, Bool, true, false, not, ◌&&◌, ◌||◌, ◌==◌, ltb,
  if◌then◌else◌, All, Bool-cases, inl, inr, arith,
}
use guidance_for_building_a.Id.{same, same_iff}
use guidance_for_building_a.LoadGenerator.Metrics.{Result, has, add_error, add_errors}

-- A result as `hit` makes it: it has a time, and it took some.
pub record IsMeasured (r : Result) : Type 0 where
  pub started : 0 < r.timestamp
  pub took : 0 < r.latency
  pub in_range : r.latency < 2 ^ 63

abbrev pub two_max : ℕ → ℕ → ℕ
two_max a b = if ltb a b then b else a

-- The smaller one, where 0 stands for none.
abbrev pub two_min : ℕ → ℕ → ℕ
two_min a b = if a == 0 || ltb b a && not (b == 0) then b else a

module _ (f : Result → ℕ) where
  abbrev pub sum_of : List Result → ℕ
  sum_of [] = 0
  sum_of (r ∷ rs) = f r + sum_of rs

  abbrev pub largest : List Result → ℕ
  largest [] = 0
  largest (r ∷ rs) = two_max (f r) (largest rs)

  -- 0 without a result.
  abbrev pub smallest : List Result → ℕ
  smallest [] = 0
  smallest (r ∷ rs) = two_min (f r) (smallest rs)

  pub sum_of-append : (xs ys : List Result) → sum_of (xs ++ ys) ≡ sum_of xs + sum_of ys
  sum_of-append [] ys = omega arith
  sum_of-append (x ∷ xs) ys = omega (arith, sum_of-append xs ys)

  pub largest-append :
      (xs ys : List Result) → largest (xs ++ ys) ≡ two_max (largest xs) (largest ys)
  largest-append [] ys = ground arith
  largest-append (x ∷ xs) ys = ground (arith, largest-append xs ys)

  pub largest-lt : (n : ℕ) (xs : List Result) → 0 < n → All (λ r. f r < n) xs → largest xs < n
  largest-lt n [] pos h = pos
  largest-lt n (x ∷ xs) pos h = ground (arith, h.0, largest-lt n xs pos h.1)

  pub smallest-append :
      (xs ys : List Result)
      → All (λ r. 0 < f r) xs
      → smallest (xs ++ ys) ≡ two_min (smallest xs) (smallest ys)
  smallest-append [] ys h = ground arith
  smallest-append (x ∷ xs) ys h = ground (arith, h.0, smallest-append xs ys h.1)

-- The number of results with a property.
module _ (p : Result → Bool) where
  abbrev pub number_of : List Result → ℕ
  number_of [] = 0
  number_of (r ∷ rs) = (if p r then 1 else 0) + number_of rs

  pub number_of-append : (xs ys : List Result) → number_of (xs ++ ys) ≡ number_of xs + number_of ys
  number_of-append [] ys = omega arith
  number_of-append (x ∷ xs) ys = omega (arith, number_of-append xs ys)

abbrev pub any_error : List ℕ → List Result → Bool
any_error e [] = false
any_error e (r ∷ rs) = same r.error e || any_error e rs

pub any_error-append :
    (e : List ℕ) (xs ys : List Result) → any_error e (xs ++ ys) ≡ (any_error e xs || any_error e ys)
any_error-append e [] ys = refl
any_error-append e (x ∷ xs) ys = ground (arith, any_error-append e xs ys)

has_snoc :
    (e a : List ℕ) (errors : List (List ℕ)) → has e (errors ++ a ∷ []) ≡ (has e errors || same a e)
unfolding has
has_snoc e a [] = ground arith
has_snoc e a (x ∷ xs) = ground (arith, has_snoc e a xs)

pub has-add_error :
    (e a : List ℕ) (errors : List (List ℕ))
    → has e (add_error a errors) ≡ (has e errors || same a e)
unfolding add_error
has-add_error e a errors = elim (Bool-cases (has a errors)) [
  | inl known ↦ elim (Bool-cases (same a e)) [
    | inl eq ↦
        let k : has e errors ≡ true = rw (← (same_iff a e).0 eq) known in rw (known, eq, k) refl
    | inr ne ↦ rw (known, ne) (ground arith)
  ]
  | inr new ↦ rw new (has_snoc e a errors)
]

pub has-add_errors :
    (e : List ℕ) (es errors : List (List ℕ))
    → has e (add_errors es errors) ≡ (has e errors || has e es)
unfolding add_errors has
has-add_errors e [] errors = ground arith
has-add_errors e (a ∷ es) errors =
    let rest = has-add_errors e es (add_error a errors) in
    let one = has-add_error e a errors in ground (arith, rest, one)

pub IsMeasured-append :
    (xs ys : List Result) → All IsMeasured xs → All IsMeasured ys → All IsMeasured (xs ++ ys)
IsMeasured-append [] ys hx hy = hy
IsMeasured-append (x ∷ xs) ys hx hy = (hx.0, IsMeasured-append xs ys hx.1 hy)

pub started : (xs : List Result) → All IsMeasured xs → All (λ r. 0 < r.timestamp) xs
started [] h = tt
started (x ∷ xs) h = (h.0.started, started xs h.1)

pub took : (xs : List Result) → All IsMeasured xs → All (λ r. 0 < r.latency) xs
took [] h = tt
took (x ∷ xs) h = (h.0.took, took xs h.1)

pub in_range : (xs : List Result) → All IsMeasured xs → All (λ r. r.latency < 2 ^ 63) xs
in_range [] h = tt
in_range (x ∷ xs) h = (h.0.in_range, in_range xs h.1)

pub smallest-lt : (xs : List Result) → All IsMeasured xs → smallest (λ r. r.latency) xs < 2 ^ 63
smallest-lt [] h = omega arith
smallest-lt (x ∷ xs) h = ground (arith, h.0.in_range, smallest-lt xs h.1)
