-- ===== src/Report/Whole.antt =====
-- What `aggregateMetrics` makes of inputs that pass its check.
use guidance_for_building_a.Common.{
  ℕ, ◌+◌, ◌*◌, ◌%◌, ◌/◌, ◌<◌, ◌≤◌, ◌≡◌, refl, ap, subst, sym, ◌∙◌, List, [], ◌∷◌, ◌++◌,
  append_assoc, append-nil, true, false, some, ◌==◌, All, length, arith,
}
use guidance_for_building_a.Common.Int64.{u64_mod, add64}
use guidance_for_building_a.LoadGenerator.Histogram.{Histogram}
use guidance_for_building_a.Report.{
  Latencies, Metrics, ensure_histogram_compatibility, add_simple, add_all_simple,
  aggregate_simple_metrics, add_all_latencies, no_latencies, no_metrics, max_int64, add_latencies,
  histogram_percentile, aggregate_latencies, aggregate_metrics,
}
use guidance_for_building_a.Report.Rank.{rank, rank-le, IsNear, rank-IsNear}
use guidance_for_building_a.Report.Sums.{IsCounted, IsSum, all_counts, aggregate_histograms-IsSum}
use guidance_for_building_a.Report.Percentile.{IsPercentile, percentile_from-IsPercentile}

abbrev pub all_requests : List Metrics → ℕ
all_requests [] = 0
all_requests (m ∷ ms) = m.requests + all_requests ms

abbrev pub all_errors : List Metrics → List (List ℕ)
all_errors [] = []
all_errors (m ∷ ms) = m.errors ++ all_errors ms

-- The bucket `b` is the first with which the counts reach the percentile of the total.
pub record IsPercentileOf (percentile : ℕ) (h : Histogram) (b : ℕ) : Type 0 where
  pub near : IsNear percentile h.total (rank percentile h.total)
  pub found : IsPercentile (rank percentile h.total) 0 h.buckets h.counts b

-- The aggregate of the inputs, whose histograms have the buckets `bs`.
pub record IsAggregate (bs : List ℕ) (inputs : List Metrics) (m : Metrics) : Type 0 where
  pub histogram : Histogram
  pub present : m.histogram ≡ some histogram
  pub sum : IsSum bs inputs histogram
  pub p50 : IsPercentileOf 50 histogram m.latencies.p50
  pub p90 : IsPercentileOf 90 histogram m.latencies.p90
  pub p95 : IsPercentileOf 95 histogram m.latencies.p95
  pub p99 : IsPercentileOf 99 histogram m.latencies.p99
  pub requests : m.requests ≡ all_requests inputs
  pub errors : m.errors ≡ all_errors inputs

add_all_simple_lem :
    (m : Metrics) (inputs : List Metrics)
    → m.requests + all_requests inputs < u64_mod
    → ((add_all_simple m inputs).requests ≡ m.requests + all_requests inputs)
      × ((add_all_simple m inputs).errors ≡ m.errors ++ all_errors inputs)
unfolding add_all_simple add_simple add64
add_all_simple_lem m [] small = (omega arith, sym (append-nil m.errors))
add_all_simple_lem m (i ∷ inputs) small =
    let (r, e) = add_all_simple_lem (add_simple m i) inputs (omega (arith, small)) in
    (omega (arith, r, small), e ∙ append_assoc m.errors i.errors (all_errors inputs))

-- The number by which the mean is divided.
add_all_latencies_lem :
    (l : Latencies) (weighted requests : ℕ) (inputs : List Metrics)
    → requests + all_requests inputs < u64_mod
    → (add_all_latencies (l, weighted, requests) inputs).2 ≡ requests + all_requests inputs
unfolding add_all_latencies add64
add_all_latencies_lem l weighted requests [] small = omega arith
add_all_latencies_lem l weighted requests (m ∷ ms) small = omega (
  arith,
  add_all_latencies_lem (add_latencies l m.latencies)
      (add64 weighted (m.latencies.mean * m.requests % u64_mod)) (add64 requests m.requests) ms
      (omega (arith, small)),
  small,
)

histogram_percentile-IsPercentile :
    (bs : List ℕ) (inputs : List Metrics) (h : Histogram) (percentile : ℕ)
    → percentile ≤ 99
    → 0 < length bs
    → IsSum bs inputs h
    → all_counts inputs < u64_mod
    → (b : ℕ) × (histogram_percentile h percentile ≡ some b) × IsPercentileOf percentile h b
unfolding histogram_percentile
histogram_percentile-IsPercentile bs inputs h percentile le some_bucket s small =
    let lens : length h.buckets ≡ length bs = ap length s.buckets in
    let (b, made, found) =
      percentile_from-IsPercentile (rank percentile h.total) 0 h.buckets h.counts
        (s.sized ∙ sym lens) (omega (arith, lens, some_bucket))
        (omega (arith, rank-le percentile h.total le, s.tallied))
        (omega (arith, s.total, s.tallied, small)) in
    (b, made, record { near = rank-IsNear percentile h.total le; found = found })

-- With a request, the mean is no division by zero.
aggregate_latencies_lem :
    (h : Histogram) (inputs : List Metrics) {a b c d : ℕ}
    → 0 < all_requests inputs
    → all_requests inputs < u64_mod
    → histogram_percentile h 50 ≡ some a
    → histogram_percentile h 90 ≡ some b
    → histogram_percentile h 95 ≡ some c
    → histogram_percentile h 99 ≡ some d
    → (l : Latencies) × (aggregate_latencies h inputs ≡ some l)
      × (a ≡ l.p50)
      × (b ≡ l.p90)
      × (c ≡ l.p95)
      × (d ≡ l.p99)
unfolding aggregate_latencies
aggregate_latencies_lem h inputs {a} {b} {c} {d} some_request few ea eb ec ed =
    let start : Latencies = record no_latencies { min = max_int64 } in
    let sums = add_all_latencies (start, 0, 0) inputs in
    let nonzero : (sums.2 == 0) ≡ false =
      ground (arith, add_all_latencies_lem start 0 0 inputs (omega (arith, few)), some_request) in
    (
      record sums.0 { mean = sums.1 / sums.2; p50 = a; p90 = b; p95 = c; p99 = d },
      rw (nonzero, ea, eb, ec, ed) refl,
      refl,
      refl,
      refl,
      refl,
    )

-- Over inputs that have a histogram each, with a count for each of its buckets, at least one, and that
-- pass the check, where the requests and the counts of all are below 2 ^ 64 and there is a request:
-- the aggregation does not panic and ends without an error. Its histogram has the same buckets, and
-- in each of them the sum of the counts of the inputs. The 50th, 90th, 95th and 99th percentile are
-- each the first bucket with which the counts reach the rank that the code computes in float64, which
-- is the percentile of the total, rounded up, but for an error of at most 4 / 2 ^ 53 of the total.
-- The requests and the errors are those of all inputs.
pub aggregate_metrics-IsAggregate :
    (now : ℕ) (first : Metrics) (rest : List Metrics) (c : IsCounted first)
    → All IsCounted rest
    → 0 < length c.histogram.buckets
    → ensure_histogram_compatibility (first ∷ rest) ≡ some true
    → all_counts (first ∷ rest) < u64_mod
    → 0 < all_requests (first ∷ rest)
    → all_requests (first ∷ rest) < u64_mod
    → (m : Metrics) × (aggregate_metrics now (first ∷ rest) ≡ some (some m))
      × IsAggregate c.histogram.buckets (first ∷ rest) m
unfolding aggregate_metrics aggregate_latencies aggregate_simple_metrics
aggregate_metrics-IsAggregate now first rest c cs some_bucket fit small some_request few =
    let bs = c.histogram.buckets in
    let inputs = first ∷ rest in
    let (h, made, s) = aggregate_histograms-IsSum first rest c cs fit small in
    let percentile : (p : ℕ)
        → p ≤ 99
        → (b : ℕ) × (histogram_percentile h p ≡ some b) × IsPercentileOf p h b =
      λ p le. histogram_percentile-IsPercentile bs inputs h p le some_bucket s small in
    let (p50, e50, h50) = percentile 50 (omega arith) in
    let (p90, e90, h90) = percentile 90 (omega arith) in
    let (p95, e95, h95) = percentile 95 (omega arith) in
    let (p99, e99, h99) = percentile 99 (omega arith) in
    let (l, latencies, s50, s90, s95, s99) =
      aggregate_latencies_lem h inputs some_request few e50 e90 e95 e99 in
    let (requests, errors) =
      add_all_simple_lem (record no_metrics { errors = []; earliest = now }) inputs
        (omega (arith, few)) in
    let at : ℕ → ℕ → Type 0 = λ p v. IsPercentileOf p h v in
    (
      record (aggregate_simple_metrics now no_metrics inputs) { histogram = some h; latencies = l },
      rw (fit, made, latencies) refl,
      record {
        histogram = h;
        present = refl;
        sum = s;
        p50 = subst (at 50) s50 h50;
        p90 = subst (at 90) s90 h90;
        p95 = subst (at 95) s95 h95;
        p99 = subst (at 99) s99 h99;
        requests = omega (arith, requests);
        errors = errors;
      },
    )
