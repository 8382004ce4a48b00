-- ===== src/Report/Rank.antt =====
-- The rank of a percentile, `uint64(math.Ceil((percentile / 100) * float64(hist.Total)))` of
-- tools/report-aggregator/aggregator.go. A float64 has 53 bits: the result of an operation is the
-- nearest number with 53 bits, the even one of two. A number below 1 is written over 2 ^ 53.
use guidance_for_building_a.Common.{
  ℕ, zero, suc, ◌+◌, ◌-◌, ◌*◌, ◌/◌, ◌%◌, ◌<◌, ◌≤◌, ◌≡◌, ◌⊎◌, inl, inr, refl, ltb, ◌==◌, ◌&&◌, ◌||◌,
  if◌then◌else◌, Bool-cases, ltb→lt, arith,
}
use guidance_for_building_a.Common.Int64.{u64_mod}
use native.Mathlib.Nat.{mod-le, mod-lt, mul-le-mul_left, mul-le-mul_right}

-- 2 ^ 53
abbrev pub precision : ℕ
precision = 9007199254740992

-- The power of two in which a number is counted, so that the count has 53 bits; from the power `u`,
-- with at most `fuel` doublings.
unfoldable pub unit_from : ℕ → ℕ → ℕ → ℕ
unit_from zero u n = u
unit_from (suc fuel) u n =
    let rest = unit_from fuel (2 * u) n in if ltb n (precision * u) then u else rest

-- A multiple of `u` nearest to `n`, of two the one with an even count.
unfoldable pub nearest : ℕ → ℕ → ℕ
nearest n u =
    let r = n % u in
    if ltb u (2 * r) || ((u == 2 * r) && (n / u % 2 == 1)) then n - r + u else n - r

-- A natural number below 2 ^ 117 as a float64, in units of the last place of its argument.
unfoldable pub round53 : ℕ → ℕ
round53 n = nearest n (unit_from 64 1 n)

-- `percentile / 100` over 2 ^ 53, for a percentile from 50 to 99: its 53 bits are after the point.
unfoldable pub fraction : ℕ → ℕ
fraction percentile = nearest (percentile * precision) 100 / 100

unfoldable pub rank : ℕ → ℕ → ℕ
rank percentile total =
    (round53 (round53 total * fraction percentile) + (precision - 1)) / precision

-- The number `u` after some doublings.
abbrev doubled : ℕ → ℕ → ℕ
doubled zero u = u
doubled (suc n) u = doubled n (2 * u)

-- With enough fuel, the unit found can count the number in 53 bits.
unit_from-counts :
    (fuel u n : ℕ) → n < precision * doubled fuel u → n < precision * unit_from fuel u n
unfolding unit_from
unit_from-counts zero u n small = small
unit_from-counts (suc fuel) u n small = elim (Bool-cases (ltb n (precision * u))) [
  | inl e ↦ rw e (ltb→lt n (precision * u) e)
  | inr e ↦ rw e (unit_from-counts fuel (2 * u) n small)
]

-- The fuel of `round53` is enough below 2 ^ 117, where the arguments of `rank` are: a total below
-- 2 ^ 64, and its product with a fraction below 2 ^ 53.
unit_from-counts_product : (n : ℕ) → n < precision * u64_mod → n < precision * unit_from 64 1 n
unit_from-counts_product n small = unit_from-counts 64 1 n small

unit_from-pos : (fuel u n : ℕ) → 0 < u → 0 < unit_from fuel u n
unfolding unit_from
unit_from-pos zero u n pos = pos
unit_from-pos (suc fuel) u n pos = elim (Bool-cases (ltb n (precision * u))) [
  | inl e ↦ rw e pos
  | inr e ↦ rw e (unit_from-pos fuel (2 * u) n (omega (arith, pos)))
]

-- No unit is larger than is needed.
unit_from-needed :
    (fuel u n : ℕ)
    → (u ≡ 1) ⊎ (precision * u ≤ 2 * n)
    → (unit_from fuel u n ≡ 1) ⊎ (precision * unit_from fuel u n ≤ 2 * n)
unfolding unit_from
unit_from-needed zero u n h = h
unit_from-needed (suc fuel) u n h = elim (Bool-cases (ltb n (precision * u))) [
  | inl e ↦ rw e h
  | inr e ↦ rw e (unit_from-needed fuel (2 * u) n (inr (ground (arith, e))))
]

nearest-near : (n u : ℕ) → 0 < u → (2 * nearest n u ≤ 2 * n + u) × (2 * n ≤ 2 * nearest n u + u)
unfolding nearest
nearest-near n u pos =
    let m = mod-le n u in let l = mod-lt n pos in (ground (arith, m), ground (arith, l))

-- The relative error of a number with 53 bits.
round53-near :
    (n : ℕ)
    → (precision * round53 n ≤ (precision + 1) * n) × (precision * n ≤ precision * round53 n + n)
unfolding round53
round53-near n =
    let u = unit_from 64 1 n in
    let (above, below) = nearest-near n u (unit_from-pos 64 1 n (omega arith)) in
    elim (unit_from-needed 64 1 n (inl refl)) [
      | inl e ↦ (omega (arith, above, e), omega (arith, below, e))
      | inr e ↦ (omega (arith, above, e), omega (arith, below, e))
    ]

-- The number `r` is the total times the percentile, divided by 100 and rounded up, but for an error of
-- four in 2 ^ 53 of the total.
pub record IsNear (percentile total r : ℕ) : Type 0 where
  pub above : precision * (percentile * total) ≤ precision * (100 * r) + 400 * total
  pub below : precision * (100 * r) < precision * (percentile * total + 100) + 400 * total

-- The error of the division.
fraction-near :
    (percentile : ℕ)
    → (100 * fraction percentile ≤ percentile * precision + 50)
      × (percentile * precision ≤ 100 * fraction percentile + 50)
unfolding fraction nearest
fraction-near percentile = (ground arith, ground arith)

-- A rank is no more than what is counted.
pub rank-le : (percentile total : ℕ) → percentile ≤ 99 → rank percentile total ≤ total
unfolding rank
rank-le percentile total le =
    let a = round53-near total in
    let b = round53-near (round53 total * fraction percentile) in
    let f = fraction-near percentile in
    let c = mul-le-mul_left (round53 total) f.0 in
    let d = mul-le-mul_left (round53 total) le in omega (arith, a.0, b.0, c, d)

pub rank-IsNear :
    (percentile total : ℕ) → percentile ≤ 99 → IsNear percentile total (rank percentile total)
unfolding rank
rank-IsNear percentile total le =
    let (a, a') = round53-near total in
    let (b, b') = round53-near (round53 total * fraction percentile) in
    let (f, f') = fraction-near percentile in
    let c = mul-le-mul_left (round53 total) f in
    let c' = mul-le-mul_left (round53 total) f' in
    let d = mul-le-mul_left percentile a in
    let d' = mul-le-mul_left percentile a' in
    let e = mul-le-mul_right total le in
    record { above = omega (arith, a, b', c', d', e); below = omega (arith, a, b, c, d, e) }
