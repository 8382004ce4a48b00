-- ===== src/Report.antt =====
-- `aggregateMetrics` of tools/report-aggregator/aggregator.go, but for the rates and averages in floating point
-- and the map of status codes. A time is counted from the zero time, a duration is the bit pattern of
-- an int64. `none` is a panic: of a missing histogram, an index out of range or a division by zero.
pub mod Sums
pub mod Rank
pub mod Percentile
pub mod Whole
mod Tests
use guidance_for_building_a.Common.{
  ℕ, ◌+◌, ◌-◌, ◌*◌, ◌/◌, ◌%◌, ◌<◌, ◌≤◌, List, [], ◌∷◌, ◌++◌, Bool, true, false, Option, none, some,
  ltb, leb, ◌==◌, if◌then◌else◌, ◌>>=◌, length, replicate,
}
use guidance_for_building_a.Common.Int64.{u64_mod, add64, lt64, is_nonneg}
use guidance_for_building_a.LoadGenerator.Histogram.{Histogram}
use guidance_for_building_a.Report.Rank.{rank}

-- `LatencyMetrics` of vegeta
pub record Latencies : Type 0 where
  pub total : ℕ
  pub mean : ℕ
  pub p50 : ℕ
  pub p90 : ℕ
  pub p95 : ℕ
  pub p99 : ℕ
  pub max : ℕ
  pub min : ℕ

-- `Metrics` of vegeta
pub record Metrics : Type 0 where
  pub latencies : Latencies
  pub histogram : Option Histogram
  pub bytes_in : ℕ
  pub bytes_out : ℕ
  pub earliest : ℕ
  pub latest : ℕ
  pub end : ℕ
  pub duration : ℕ
  pub wait : ℕ
  pub requests : ℕ
  pub errors : List (List ℕ)

-- The inner loop of the check.
unfoldable pub each_equal : List ℕ → List ℕ → Bool
each_equal (b ∷ bs) (c ∷ cs) = let rest = each_equal bs cs in if b == c then rest else false
each_equal bs cs = true

-- The loop over `inputs[1:]`; `false` is an error.
unfoldable pub compatible_with : Option Histogram → List Metrics → Option Bool
compatible_with first [] = some true
compatible_with first (m ∷ ms) = do
  f ← first
  h ← m.histogram
  let rest = compatible_with first ms in
      if length f.buckets == length h.buckets
      then (if each_equal f.buckets h.buckets then rest else some false)
      else some false

unfoldable pub ensure_histogram_compatibility : List Metrics → Option Bool
ensure_histogram_compatibility [] = none
ensure_histogram_compatibility (first ∷ rest) = compatible_with first.histogram rest

-- `hist.Counts[index] += val` for the counts of an input.
unfoldable pub add_counts : List ℕ → List ℕ → Option (List ℕ)
add_counts counts [] = some counts
add_counts [] (v ∷ vs) = none
add_counts (c ∷ cs) (v ∷ vs) = do rest ← add_counts cs vs; some (add64 c v ∷ rest)

-- `hist.Total += val` for the counts of an input.
unfoldable pub add_total : ℕ → List ℕ → ℕ
add_total total [] = total
add_total total (v ∷ vs) = add_total (add64 total v) vs

unfoldable pub add_histograms : Histogram → List Metrics → Option Histogram
add_histograms hist [] = some hist
add_histograms hist (m ∷ ms) = do
  h ← m.histogram
  counts ← add_counts hist.counts h.counts
  add_histograms (record hist { counts = counts; total = add_total hist.total h.counts }) ms

unfoldable pub aggregate_histograms : List Metrics → Option Histogram
aggregate_histograms [] = none
aggregate_histograms (first ∷ rest) = do
  f ← first.histogram
  add_histograms
      (record { buckets = f.buckets; counts = replicate (length f.buckets) 0; total = 0 })
      (first ∷ rest)

-- The loop of `histogramPercentile`, with what it has counted.
unfoldable pub percentile_from : ℕ → ℕ → List ℕ → List ℕ → Option ℕ
percentile_from rank counted [] counts = some 0
percentile_from rank counted (b ∷ bs) [] = none
percentile_from rank counted (b ∷ bs) (c ∷ cs) =
    let rest = percentile_from rank (add64 counted c) bs cs in
    if leb rank (add64 counted c) then some b else rest

-- One round of the loop of `aggregateSimpleMetrics`.
unfoldable pub add_simple : Metrics → Metrics → Metrics
add_simple m input =
    let latest = if ltb m.latest input.latest then input.latest else m.latest in
    record m {
      requests = add64 m.requests input.requests;
      wait = add64 m.wait input.wait;
      duration = add64 m.duration input.duration;
      bytes_in = add64 m.bytes_in input.bytes_in;
      bytes_out = add64 m.bytes_out input.bytes_out;
      errors = m.errors ++ input.errors;
      earliest = if ltb input.earliest m.earliest then input.earliest else m.earliest;
      latest = latest;
      end = if ltb latest input.end then input.end else m.end;
    }

unfoldable pub add_all_simple : Metrics → List Metrics → Metrics
add_all_simple m [] = m
add_all_simple m (input ∷ inputs) = add_all_simple (add_simple m input) inputs

-- The division of an int64 by a positive number, towards zero.
unfoldable pub quot64 : ℕ → ℕ → ℕ
quot64 a n = if is_nonneg a then a / n else (u64_mod - (u64_mod - a) / n) % u64_mod

-- `aggregateSimpleMetrics`, at the time `now`
unfoldable pub aggregate_simple_metrics : ℕ → Metrics → List Metrics → Metrics
aggregate_simple_metrics now m inputs =
    let summed = add_all_simple (record m { errors = []; earliest = now }) inputs in
    record summed {
      duration = quot64 summed.duration (length inputs);
      wait = quot64 summed.wait (length inputs);
    }

-- One round of the loop of `aggregateLatencies`.
unfoldable pub add_latencies : Latencies → Latencies → Latencies
add_latencies l input = record l {
  total = add64 l.total input.total;
  max = if lt64 l.max input.max then input.max else l.max;
  min = if lt64 input.min l.min then input.min else l.min;
}

-- Its totals, `weightedMeanSum` and `sumOfRequests`.
unfoldable pub add_all_latencies : Latencies × ℕ × ℕ → List Metrics → Latencies × ℕ × ℕ
add_all_latencies s [] = s
add_all_latencies (l, weighted, requests) (m ∷ ms) =
    add_all_latencies
      (
        add_latencies l m.latencies,
        add64 weighted (m.latencies.mean * m.requests % u64_mod),
        add64 requests m.requests,
      )
      ms

-- What there is before the loops.
abbrev pub no_latencies : Latencies
no_latencies = record { total = 0; mean = 0; p50 = 0; p90 = 0; p95 = 0; p99 = 0; max = 0; min = 0 }

-- `math.MaxInt64`
abbrev pub max_int64 : ℕ
max_int64 = 9223372036854775807

abbrev pub no_metrics : Metrics
no_metrics = record {
  latencies = no_latencies;
  histogram = none;
  bytes_in = 0;
  bytes_out = 0;
  earliest = 0;
  latest = 0;
  end = 0;
  duration = 0;
  wait = 0;
  requests = 0;
  errors = [];
}

unfoldable pub histogram_percentile : Histogram → ℕ → Option ℕ
histogram_percentile h percentile = percentile_from (rank percentile h.total) 0 h.buckets h.counts

unfoldable pub aggregate_latencies : Histogram → List Metrics → Option Latencies
aggregate_latencies hist inputs =
    let (l, weighted, requests) =
      add_all_latencies (record no_latencies { min = max_int64 }, 0, 0) inputs in
    (do
      mean ← if requests == 0 then none else some (weighted / requests)
      p50 ← histogram_percentile hist 50
      p90 ← histogram_percentile hist 90
      p95 ← histogram_percentile hist 95
      p99 ← histogram_percentile hist 99
      some (record l { mean = mean; p50 = p50; p90 = p90; p95 = p95; p99 = p99 }))

-- `aggregateMetrics`; no metrics where the histograms do not fit.
unfoldable pub aggregate_metrics : ℕ → List Metrics → Option (Option Metrics)
aggregate_metrics now inputs = do
  fit ← ensure_histogram_compatibility inputs
  elim fit [
    | false ↦ some none
    | true ↦ (do
      hist ← aggregate_histograms inputs
      latencies ← aggregate_latencies hist inputs
      some (
          some (record (aggregate_simple_metrics now no_metrics inputs) {
            histogram = some hist;
            latencies = latencies;
          })))
  ]
