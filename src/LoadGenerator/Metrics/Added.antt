-- ===== src/LoadGenerator/Metrics/Added.antt =====
-- Metrics to which results were added one by one are those of the results.
use guidance_for_building_a.Common.{
  ℕ, ◌^◌, ◌%◌, ◌≡◌, ◌≢◌, refl, ◌∙◌, subst, List, [], ◌∷◌, ◌++◌, ◌||◌, Option, none, some, ◌==◌, ltb,
  if◌then◌else◌, length-append, Option-cases, inl, inr, arith,
}
use guidance_for_building_a.Common.Int64.{lt64, add64, u64_mod}
use guidance_for_building_a.Id.{same}
use guidance_for_building_a.LoadGenerator.Counts.{increase-IsMap, count_of-increase}
use guidance_for_building_a.LoadGenerator.Histogram.{Histogram}
use guidance_for_building_a.LoadGenerator.Histogram
use guidance_for_building_a.LoadGenerator.Metrics.{
  Result, Estimator, Metrics, has, end_of, add_latency, add_times, counted, add, add_text,
}
use guidance_for_building_a.LoadGenerator.Metrics.Summary.{
  IsMeasured, sum_of, largest, smallest, sum_of-append, largest-append, largest-lt, smallest-append,
  number_of-append, any_error-append, has-add_error, IsMeasured-append, started, took, in_range,
  smallest-lt,
}
use guidance_for_building_a.LoadGenerator.Metrics.Merged.{Represents, is_success, has_code}

has-add_text :
    (e text : List ℕ) (errors : List (List ℕ))
    → e ≢ []
    → has e (add_text text errors) ≡ (has e errors || same text e)
unfolding add_text same
has-add_text [] [] errors ne = absurd (ne refl)
has-add_text (c ∷ cs) [] errors ne = ground arith
has-add_text e (t ∷ ts) errors ne = has-add_error e (t ∷ ts) errors

module _ (est : Estimator) (rs : List Result) (r : Result) (m : Metrics est) (q : IsMeasured r)
    (h : Represents est rs m) where
  added_max :
      (if lt64 m.latencies.max r.latency then r.latency else m.latencies.max)
      ≡ largest (λ x. x.latency) (rs ++ r ∷ [])
  unfolding lt64
  added_max =
      rw (h.max, largest-append (λ x. x.latency) rs (r ∷ []))
        (ground (
          arith,
          q.in_range,
          largest-lt (λ x. x.latency) (2 ^ 63) rs (omega arith) (in_range rs h.measured),
        ))

  added_min :
      (if lt64 r.latency m.latencies.min || m.latencies.min == 0
        then r.latency
        else m.latencies.min)
      ≡ smallest (λ x. x.latency) (rs ++ r ∷ [])
  unfolding lt64
  added_min =
      rw (h.min, smallest-append (λ x. x.latency) rs (r ∷ []) (took rs h.measured))
        (ground (arith, q.in_range, q.took, smallest-lt rs h.measured))

  added_earliest :
      (if m.earliest == 0 || ltb r.timestamp m.earliest then r.timestamp else m.earliest)
      ≡ smallest (λ x. x.timestamp) (rs ++ r ∷ [])
  added_earliest =
      rw (h.earliest, smallest-append (λ x. x.timestamp) rs (r ∷ []) (started rs h.measured))
        (ground (arith, q.started))

  added_largest :
      (f : Result → ℕ) (now : ℕ)
      → now ≡ largest f rs
      → (if ltb now (f r) then f r else now) ≡ largest f (rs ++ r ∷ [])
  added_largest f now e = rw (e, largest-append f rs (r ∷ [])) (ground arith)

  added_sum :
      (f : Result → ℕ) (now : ℕ)
      → now ≡ sum_of f rs % u64_mod
      → add64 now (f r) ≡ sum_of f (rs ++ r ∷ []) % u64_mod
  unfolding add64
  added_sum f now e = rw (e, sum_of-append f rs (r ∷ [])) (omega arith)

  abbrev timed : Metrics est
  timed = add_times est (counted est m r) r

  -- Whatever the histogram became.
  added-Represents :
      (hist : Option Histogram) → Represents est (rs ++ r ∷ []) (record timed { histogram = hist })
  unfolding add_times add_latency
  added-Represents hist = record {
    measured = IsMeasured-append rs (r ∷ []) h.measured (q, tt);
    requests = rw (h.requests, length-append rs (r ∷ [])) (unfold add64 in omega arith);
    bytes_in = added_sum (λ x. x.bytes_in) m.bytes_in h.bytes_in;
    bytes_out = added_sum (λ x. x.bytes_out) m.bytes_out h.bytes_out;
    total = added_sum (λ x. x.latency) m.latencies.total h.total;
    max = added_max;
    min = added_min;
    earliest = added_earliest;
    latest = added_largest (λ x. x.timestamp) m.latest h.latest;
    end = added_largest end_of m.end h.end;
    success =
        rw (h.success, number_of-append is_success rs (r ∷ [])) (unfold add64 in ground arith);
    codes = increase-IsMap r.code 1 m.status_codes h.codes;
    code_counts = λ code.
        count_of-increase code r.code 1 m.status_codes
        ∙ (rw (h.code_counts code, number_of-append (has_code code) rs (r ∷ []))
            (unfold add64 in ground arith));
    errors = λ e ne.
        has-add_text e r.error m.errors ne
        ∙ (rw (h.errors e ne, any_error-append e rs (r ∷ [])) (ground arith));
  }

  -- Adding a measured result without an error to the metrics of some gives the metrics of all.
  pub add-Represents :
      {m' : Metrics est} → add est m r ≡ some (m', none) → Represents est (rs ++ r ∷ []) m'
  unfolding add
  add-Represents {m'} fine = elim (Option-cases (add_latency est m.latencies r.latency).1) [
    | inr (err, e) ↦ let wrong = rw (add, e) at fine in cc wrong
    | inl e ↦ elim (Option-cases m.histogram) [
      | inl no_histogram ↦
          let eq : timed ≡ m' = cc (rw (add, e, no_histogram) at fine) in
          subst (Represents est (rs ++ r ∷ [])) eq
            (unfold add_times in added-Represents m.histogram)
      | inr (hist, some_histogram) ↦ elim (Option-cases (Histogram.add hist r.latency)) [
        | inl panics ↦ let wrong = rw (add, e, some_histogram, panics) at fine in cc wrong
        | inr (hist', counts) ↦
            let eq : record timed { histogram = some hist' } ≡ m' =
              cc (rw (add, e, some_histogram, counts) at fine) in
            subst (Represents est (rs ++ r ∷ [])) eq (added-Represents (some hist'))
      ]
    ]
  ]
