-- ===== src/LoadGenerator/Metrics.antt =====
-- `Metrics` and `LatencyMetrics` of tools/load-generator/code/load_generator/metrics.go. A time is
-- counted from the zero time, a duration is the bit pattern of an int64. The t-digest is a parameter. `none` is a panic.
pub mod Summary
pub mod Merged
pub mod Added
use guidance_for_building_a.Common.{
  ℕ, zero, suc, ◌+◌, ◌-◌, ◌^◌, ◌≡◌, List, [], ◌∷◌, ◌++◌, Bool, true, false, not, ◌&&◌, ◌||◌, Option,
  none, some, ◌==◌, ltb, leb, if◌then◌else◌, ◌>>=◌,
}
use guidance_for_building_a.Common.Int64.{add64, lt64, is_nonneg, u64_mod}
use guidance_for_building_a.Id.{same}
use guidance_for_building_a.Api.{Error}
use guidance_for_building_a.LoadGenerator.Counts.{Counts, increase, increase_all}
use guidance_for_building_a.LoadGenerator.Histogram.{Histogram}
use guidance_for_building_a.LoadGenerator.Histogram

-- `Result`, as far as the metrics read it; no error is the empty text.
pub record Result : Type 0 where
  pub code : ℕ
  pub timestamp : ℕ
  pub latency : ℕ
  pub bytes_out : ℕ
  pub bytes_in : ℕ
  pub error : List ℕ

-- `estimator`
pub record Estimator : Type 1 where
  pub Digest : Type 0
  pub new : Digest
  pub add : Digest → ℕ → Digest × Option Error
  pub merge : Digest → Digest → Digest × Option Error

-- `r.Timestamp.Add(r.Latency)`
unfoldable pub end_of : Result → ℕ
end_of r =
    if is_nonneg r.latency then r.timestamp + r.latency else r.timestamp - (u64_mod - r.latency)

unfoldable pub has : List ℕ → List (List ℕ) → Bool
has e [] = false
has e (x ∷ xs) = same x e || has e xs

unfoldable pub add_error : List ℕ → List (List ℕ) → List (List ℕ)
add_error e errors = if has e errors then errors else errors ++ e ∷ []

-- `if r.Error != ""`
unfoldable pub add_text : List ℕ → List (List ℕ) → List (List ℕ)
add_text [] errors = errors
add_text (c ∷ cs) errors = add_error (c ∷ cs) errors

unfoldable pub add_errors : List (List ℕ) → List (List ℕ) → List (List ℕ)
add_errors [] errors = errors
add_errors (e ∷ es) errors = add_errors es (add_error e errors)

module _ (est : Estimator) where
  pub record LatencyMetrics : Type 0 where
    pub total : ℕ
    pub max : ℕ
    pub min : ℕ
    pub digest : est.Digest

  -- `m.errors` is the set of the texts in `m.Errors`, so it is left out.
  pub record Metrics : Type 0 where
    pub latencies : LatencyMetrics
    pub histogram : Option Histogram
    pub bytes_in : ℕ
    pub bytes_out : ℕ
    pub earliest : ℕ
    pub latest : ℕ
    pub end : ℕ
    pub requests : ℕ
    pub status_codes : Counts
    pub errors : List (List ℕ)
    pub success : ℕ

  -- `NewMetrics`, with the histogram that the application sets
  unfoldable pub new_metrics : Option Histogram → Metrics
  new_metrics histogram = record {
    latencies = record { total = 0; max = 0; min = 0; digest = est.new };
    histogram = histogram;
    bytes_in = 0;
    bytes_out = 0;
    earliest = 0;
    latest = 0;
    end = 0;
    requests = 0;
    status_codes = [];
    errors = [];
    success = 0;
  }

  -- `LatencyMetrics.Add`
  unfoldable pub add_latency : LatencyMetrics → ℕ → LatencyMetrics × Option Error
  add_latency l latency =
      let (digest, e) = est.add l.digest latency in
      (
        record {
          total = add64 l.total latency;
          max = if lt64 l.max latency then latency else l.max;
          min = if lt64 latency l.min || l.min == 0 then latency else l.min;
          digest = digest;
        },
        e,
      )

  -- `LatencyMetrics.Merge`
  unfoldable pub merge_latencies : LatencyMetrics → LatencyMetrics → LatencyMetrics × Option Error
  merge_latencies l other =
      let (digest, e) = est.merge l.digest other.digest in
      (
        record {
          total = add64 l.total other.total;
          max = if lt64 l.max other.max then other.max else l.max;
          min =
              if l.min == 0 || lt64 other.min l.min && not (other.min == 0)
              then other.min
              else l.min;
          digest = digest;
        },
        e,
      )

  -- The fields that `Add` sets once the latency is in.
  unfoldable pub add_times : Metrics → Result → Metrics
  add_times m r = record m {
    earliest = if m.earliest == 0 || ltb r.timestamp m.earliest then r.timestamp else m.earliest;
    latest = if ltb m.latest r.timestamp then r.timestamp else m.latest;
    end = if ltb m.end (end_of r) then end_of r else m.end;
    success = if leb 200 r.code && ltb r.code 400 then add64 m.success 1 else m.success;
    errors = add_text r.error m.errors;
  }

  -- The fields that `Add` sets first.
  abbrev pub counted : Metrics → Result → Metrics
  counted m r = record m {
    requests = add64 m.requests 1;
    status_codes = increase r.code 1 m.status_codes;
    bytes_out = add64 m.bytes_out r.bytes_out;
    bytes_in = add64 m.bytes_in r.bytes_in;
    latencies = (add_latency m.latencies r.latency).0;
  }

  -- `Metrics.Add`
  unfoldable pub add : Metrics → Result → Option (Metrics × Option Error)
  add m r = elim (add_latency m.latencies r.latency).1 [
    | some err ↦ some (counted m r, some err)
    | none ↦ elim m.histogram [
      | none ↦ some (add_times (counted m r) r, none)
      | some h ↦ (do
        h' ← Histogram.add h r.latency
        some (record (add_times (counted m r) r) { histogram = some h' }, none))
    ]
  ]

  -- The fields that `Merge` sets once latencies and histogram are merged.
  unfoldable pub merge_fields : Metrics → Metrics → Metrics
  merge_fields m other = record m {
    bytes_out = add64 m.bytes_out other.bytes_out;
    bytes_in = add64 m.bytes_in other.bytes_in;
    earliest =
        if m.earliest == 0 || ltb other.earliest m.earliest && not (other.earliest == 0)
        then other.earliest
        else m.earliest;
    latest = if ltb m.latest other.latest then other.latest else m.latest;
    end = if ltb m.end other.end then other.end else m.end;
    requests = add64 m.requests other.requests;
    status_codes = increase_all other.status_codes m.status_codes;
    errors = add_errors other.errors m.errors;
    success = add64 m.success other.success;
  }

  -- `if m.Histogram != nil && other.Histogram != nil`
  unfoldable pub merge_histogram : Option Histogram → Option Histogram → Option Histogram × Bool
  merge_histogram none other = (none, true)
  merge_histogram (some h) none = (some h, true)
  merge_histogram (some h) (some other) = let (h', ok) = Histogram.merge h other in (some h', ok)

  -- The error of histograms that do not fit.
  abbrev pub unequal_buckets : Error
  unequal_buckets = Error.other 0

  -- `Metrics.Merge`
  unfoldable pub merge : Metrics → Metrics → Metrics × Option Error
  merge m other =
      let (l, e) = merge_latencies m.latencies other.latencies in
      let (h, ok) = merge_histogram m.histogram other.histogram in
      let merged = record m { latencies = l; histogram = h } in
      elim e [
        | some err ↦ (record m { latencies = l }, some err)
        | none ↦ if ok then (merge_fields merged other, none) else (merged, some unequal_buckets)
      ]
