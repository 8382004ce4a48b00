-- ===== src/LoadGenerator/Metrics/Merged.antt =====
-- Metrics that were added to and merged are those of all results.
use guidance_for_building_a.Common.{
  ℕ, ◌+◌, ◌^◌, ◌%◌, ◌≡◌, ◌≢◌, refl, sym, ◌∙◌, List, [], ◌++◌, Bool, not, ◌&&◌, ◌||◌, Option, none,
  ◌==◌, ltb, leb, if◌then◌else◌, length, length-append, All, Bool-cases, Option-cases, inl, inr,
  arith,
}
use guidance_for_building_a.Common.Int64.{lt64, add64, u64_mod}
use guidance_for_building_a.LoadGenerator.Counts.{
  count_of, IsMap, increase_all-IsMap, count_of-increase_all,
}
use guidance_for_building_a.LoadGenerator.Histogram.{Histogram}
use guidance_for_building_a.LoadGenerator.Metrics.{
  Result, Estimator, Metrics, has, end_of, new_metrics, merge_latencies, merge_fields,
  merge_histogram, merge,
}
use guidance_for_building_a.LoadGenerator.Metrics.Summary.{
  IsMeasured, sum_of, largest, smallest, number_of, any_error, sum_of-append, largest-append,
  largest-lt, smallest-append, number_of-append, any_error-append, has-add_errors,
  IsMeasured-append, started, took, in_range, smallest-lt,
}

abbrev pub is_success : Result → Bool
is_success r = leb 200 r.code && ltb r.code 400

abbrev pub has_code : ℕ → Result → Bool
has_code code r = r.code == code

module _ (est : Estimator) where
  -- The metrics of these results, but for the estimator and the histogram.
  pub record Represents (rs : List Result) (m : Metrics est) : Type 0 where
    pub measured : All IsMeasured rs
    pub requests : m.requests ≡ length rs % u64_mod
    pub bytes_in : m.bytes_in ≡ sum_of (λ r. r.bytes_in) rs % u64_mod
    pub bytes_out : m.bytes_out ≡ sum_of (λ r. r.bytes_out) rs % u64_mod
    pub total : m.latencies.total ≡ sum_of (λ r. r.latency) rs % u64_mod
    pub max : m.latencies.max ≡ largest (λ r. r.latency) rs
    pub min : m.latencies.min ≡ smallest (λ r. r.latency) rs
    pub earliest : m.earliest ≡ smallest (λ r. r.timestamp) rs
    pub latest : m.latest ≡ largest (λ r. r.timestamp) rs
    pub end : m.end ≡ largest end_of rs
    pub success : m.success ≡ number_of is_success rs % u64_mod
    pub codes : IsMap m.status_codes
    pub code_counts :
        (code : ℕ) → count_of code m.status_codes ≡ number_of (has_code code) rs % u64_mod
    pub errors : (e : List ℕ) → e ≢ [] → has e m.errors ≡ any_error e rs

  pub new_metrics-Represents : (h : Option Histogram) → Represents [] (new_metrics est h)
  unfolding new_metrics count_of has
  new_metrics-Represents h = record {
    measured = tt;
    requests = refl;
    bytes_in = refl;
    bytes_out = refl;
    total = refl;
    max = refl;
    min = refl;
    earliest = refl;
    latest = refl;
    end = refl;
    success = refl;
    codes = tt;
    code_counts = λ code. refl;
    errors = λ e ne. refl;
  }

  sum_mod : (a b : ℕ) → add64 (a % u64_mod) (b % u64_mod) ≡ (a + b) % u64_mod
  unfolding add64
  sum_mod a b = omega arith

  module _ (xs ys : List Result) (m other : Metrics est) (h : Represents xs m)
      (k : Represents ys other) where
    merged_max :
        (if lt64 m.latencies.max other.latencies.max then other.latencies.max else m.latencies.max)
        ≡ largest (λ r. r.latency) (xs ++ ys)
    unfolding lt64
    merged_max =
        rw (h.max, k.max, largest-append (λ r. r.latency) xs ys)
          (ground (
            arith,
            largest-lt (λ r. r.latency) (2 ^ 63) xs (omega arith) (in_range xs h.measured),
            largest-lt (λ r. r.latency) (2 ^ 63) ys (omega arith) (in_range ys k.measured),
          ))

    merged_min :
        (if m.latencies.min == 0
            || lt64 other.latencies.min m.latencies.min && not (other.latencies.min == 0)
          then other.latencies.min
          else m.latencies.min)
        ≡ smallest (λ r. r.latency) (xs ++ ys)
    unfolding lt64
    merged_min =
        rw (h.min, k.min, smallest-append (λ r. r.latency) xs ys (took xs h.measured))
          (ground (arith, smallest-lt xs h.measured, smallest-lt ys k.measured))

    -- Whatever the histogram became.
    merge_fields-Represents :
        (hist : Option Histogram)
        → Represents (xs ++ ys) (
            merge_fields est
              (record m {
                latencies = (merge_latencies est m.latencies other.latencies).0;
                histogram = hist;
              })
              other)
    unfolding merge_fields merge_latencies
    merge_fields-Represents hist = record {
      measured = IsMeasured-append xs ys h.measured k.measured;
      requests = rw (h.requests, k.requests, length-append xs ys) (sum_mod (length xs) (length ys));
      bytes_in = rw (h.bytes_in, k.bytes_in, sum_of-append (λ r. r.bytes_in) xs ys) (sum_mod _ _);
      bytes_out =
          rw (h.bytes_out, k.bytes_out, sum_of-append (λ r. r.bytes_out) xs ys) (sum_mod _ _);
      total = rw (h.total, k.total, sum_of-append (λ r. r.latency) xs ys) (sum_mod _ _);
      max = merged_max;
      min = merged_min;
      earliest =
          rw
            (
              h.earliest,
              k.earliest,
              smallest-append (λ r. r.timestamp) xs ys (started xs h.measured),
            )
            refl;
      latest = rw (h.latest, k.latest, largest-append (λ r. r.timestamp) xs ys) refl;
      end = rw (h.end, k.end, largest-append end_of xs ys) refl;
      success = rw (h.success, k.success, number_of-append is_success xs ys) (sum_mod _ _);
      codes = increase_all-IsMap other.status_codes m.status_codes h.codes;
      code_counts = λ code.
          count_of-increase_all code other.status_codes m.status_codes k.codes
            (rw (h.code_counts code) (omega arith))
          ∙ (rw (h.code_counts code, k.code_counts code, number_of-append (has_code code) xs ys)
              (sum_mod _ _));
      errors = λ e ne.
          has-add_errors e other.errors m.errors
          ∙ (rw (h.errors e ne, k.errors e ne) (sym (any_error-append e xs ys)));
    }

  -- If the estimators merge and the histograms do, merging the metrics of some results with those of
  -- others gives the metrics of all.
  pub merge-Represents :
      (xs ys : List Result) (m other : Metrics est)
      → (merge est m other).1 ≡ none
      → Represents xs m
      → Represents ys other
      → Represents (xs ++ ys) (merge est m other).0
  unfolding merge
  merge-Represents xs ys m other fine h k =
      elim (Option-cases (merge_latencies est m.latencies other.latencies).1) [
        | inr (err, e) ↦ let wrong = rw (merge, e) at fine in cc wrong
        | inl e ↦ elim (Bool-cases (merge_histogram est m.histogram other.histogram).1) [
          | inl fits ↦
              rw (merge, e, fits)
                (merge_fields-Represents xs ys m other h k
                  (merge_histogram est m.histogram other.histogram).0)
          | inr unfit ↦ let wrong = rw (merge, e, unfit) at fine in cc wrong
        ]
      ]
