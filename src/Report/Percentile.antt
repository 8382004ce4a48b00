-- ===== src/Report/Percentile.antt =====
-- The bucket in which `histogramPercentile` finds a rank.
use guidance_for_building_a.Common.{
  ℕ, suc, ◌+◌, ◌<◌, ◌≤◌, ◌≡◌, ◌⊎◌, refl, ap, List, [], ◌∷◌, some, true, leb, length, get_elem?,
  take, sum, Bool-cases, inl, inr, arith,
}
use guidance_for_building_a.Common.Int64.{u64_mod, add64}
use guidance_for_building_a.Report.{percentile_from}

-- The bucket `b` is the first with which the counts reach the rank, where `counted` are before all.
pub record IsPercentile (rank counted : ℕ) (buckets counts : List ℕ) (b : ℕ) : Type 0 where
  pub index : ℕ
  pub bucket : get_elem? buckets index ≡ some b
  pub reached : rank ≤ counted + sum (take (suc index) counts)
  pub first : (index ≡ 0) ⊎ (counted + sum (take index counts) < rank)

pub percentile_from-IsPercentile :
    (rank counted : ℕ) (bs cs : List ℕ)
    → length cs ≡ length bs
    → 0 < length bs
    → rank ≤ counted + sum cs
    → counted + sum cs < u64_mod
    → (b : ℕ) × (percentile_from rank counted bs cs ≡ some b) × IsPercentile rank counted bs cs b
unfolding percentile_from add64
percentile_from-IsPercentile rank counted [] cs len some_bucket reach small = absurd (omega arith)
percentile_from-IsPercentile rank counted (b ∷ bs) [] len some_bucket reach small =
    absurd (omega arith)
percentile_from-IsPercentile rank counted (b ∷ []) (c ∷ x ∷ xs) len some_bucket reach small =
    absurd (omega arith)
percentile_from-IsPercentile rank counted (b ∷ []) (c ∷ []) len some_bucket reach small =
    let here : leb rank (add64 counted c) ≡ true = ground arith in
    (
      b,
      rw here refl,
      record { index = 0; bucket = refl; reached = omega (arith, reach); first = inl refl },
    )
percentile_from-IsPercentile rank counted (b ∷ b' ∷ bs) (c ∷ cs) len some_bucket reach small =
    elim (Bool-cases (leb rank (add64 counted c))) [
      | inl here ↦ (
        b,
        rw here refl,
        record {
          index = 0;
          bucket = refl;
          reached = ground (arith, here, small);
          first = inl refl;
        },
      )
      | inr later ↦
          let (found, e, p) =
            percentile_from-IsPercentile rank (add64 counted c) (b' ∷ bs) cs (omega arith)
              (omega arith) (omega arith) (omega arith) in
          let before : counted + (c + sum (take p.index cs)) < rank = elim p.first [
            | inl zero_index ↦
                let none_before : sum (take p.index cs) ≡ 0 =
                  ap (λ k. sum (take k cs)) zero_index in
                ground (arith, later, none_before, small)
            | inr less ↦ omega (arith, less, small)
          ] in
          (
            found,
            rw later e,
            record {
              index = suc p.index;
              bucket = p.bucket;
              reached = omega (arith, p.reached, small);
              first = inr before;
            },
          )
    ]
