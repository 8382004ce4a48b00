-- ===== src/LoadGenerator/Attack/Accounts.antt =====
-- An attack without errors accounts for every hit.
use guidance_for_building_a.Common.{
  ℕ, ◌<◌, ◌≡◌, refl, ap, sym, ◌∙◌, List, [], ◌∷◌, ◌++◌, none, some, All, length, append_assoc,
  append-nil, arith,
}
use guidance_for_building_a.LoadGenerator.Histogram.{Histogram}
use guidance_for_building_a.LoadGenerator.Histogram
use guidance_for_building_a.LoadGenerator.Histogram.Totals.{add_buckets, merge_buckets}
use guidance_for_building_a.LoadGenerator.Metrics.{
  Result, Estimator, Metrics, new_metrics, add_latency, add_times, counted, add, merge_latencies,
  merge_fields, merge_histogram, merge,
}
use guidance_for_building_a.LoadGenerator.Metrics.Summary.{IsMeasured}
use guidance_for_building_a.LoadGenerator.Metrics.Merged.{
  Represents, new_metrics-Represents, merge-Represents,
}
use guidance_for_building_a.LoadGenerator.Metrics.Added.{add-Represents}
use guidance_for_building_a.LoadGenerator.Attack.{
  Outcome, worker_error, worker_results, attack, finish_worker, finish_workers, returned, outcomes,
  attack_all,
}

-- The t-digest takes every latency and every other digest.
pub record IsTotal (est : Estimator) : Type 0 where
  pub adds : (d : est.Digest) (latency : ℕ) → (est.add d latency).1 ≡ none
  pub merges : (d other : est.Digest) → (est.merge d other).1 ≡ none

-- All hits, by worker.
abbrev pub all_hits : List (List Result) → List Result
all_hits [] = []
all_hits (rs ∷ rss) = rs ++ all_hits rss

module _ (est : Estimator) (total : IsTotal est) (buckets : List ℕ)
    (some_bucket : 0 < length buckets) where
  -- Metrics of these results with a histogram over the buckets.
  record IsGood (rs : List Result) (m : Metrics est) : Type 0 where
    represents : Represents est rs m
    hist : Histogram
    has_histogram : m.histogram ≡ some hist
    has_buckets : hist.buckets ≡ buckets

  add-IsGood :
      (rs : List Result) (r : Result) (m : Metrics est)
      → IsMeasured r
      → IsGood rs m
      → (m' : Metrics est) × (add est m r ≡ some (m', none)) × IsGood (rs ++ r ∷ []) m'
  unfolding add add_latency add_times
  add-IsGood rs r m q g =
      let (hist', counts, same) =
        add_buckets g.hist r.latency (omega (arith, ap length g.has_buckets, some_bucket)) in
      let fine : (add_latency est m.latencies r.latency).1 ≡ none =
        total.adds m.latencies.digest r.latency in
      let m' : Metrics est = record (add_times est (counted est m r) r) {
        histogram = some hist';
      } in
      let done : add est m r ≡ some (m', none) = rw (add, fine, g.has_histogram, counts) refl in
      (
        m',
        done,
        record {
          represents = add-Represents est rs r m q g.represents done;
          hist = hist';
          has_histogram = refl;
          has_buckets = same ∙ g.has_buckets;
        },
      )

  merge-IsGood :
      (xs ys : List Result) (m other : Metrics est)
      → IsGood xs m
      → IsGood ys other
      → ((merge est m other).1 ≡ none) × IsGood (xs ++ ys) (merge est m other).0
  unfolding merge merge_histogram merge_fields
  merge-IsGood xs ys m other g k =
      let (ok, same) = merge_buckets g.hist k.hist (g.has_buckets ∙ sym k.has_buckets) in
      let fine : (merge_latencies est m.latencies other.latencies).1 ≡ none =
        unfold merge_latencies in total.merges m.latencies.digest other.latencies.digest in
      let no_error : (merge est m other).1 ≡ none =
        rw (merge, fine, g.has_histogram, k.has_histogram, ok) refl in
      (
        no_error,
        record {
          represents = merge-Represents est xs ys m other no_error g.represents k.represents;
          hist = (Histogram.merge g.hist k.hist).0;
          has_histogram = rw (merge, fine, g.has_histogram, k.has_histogram, ok) refl;
          has_buckets = same ∙ g.has_buckets;
        },
      )

  attack-IsGood :
      (before rs : List Result) (m : Metrics est)
      → All IsMeasured rs
      → IsGood before m
      → (m' : Metrics est) × (attack est m rs ≡ some (worker_results m')) × IsGood (before ++ rs) m'
  unfolding attack
  attack-IsGood before [] m q g = (m, refl, rw (append-nil before) g)
  attack-IsGood before (r ∷ rs) m q g =
      let (m', one, g') = add-IsGood before r m q.0 g in
      let (m2, rest, g2) = attack-IsGood (before ++ r ∷ []) rs m' q.1 g' in
      (m2, rw (one, rest) refl, rw (← append_assoc before (r ∷ []) rs) g2)

  -- The metrics of the workers.
  abbrev Good : List (List Result) → List (Outcome est) → Type 0
  Good [] [] = Unit {0}
  Good [] (o ∷ os) = ⊥
  Good (rs ∷ rss) [] = ⊥
  Good (rs ∷ rss) (worker_error e ∷ os) = ⊥
  Good (rs ∷ rss) (worker_results m ∷ os) = IsGood rs m × Good rss os

  new-IsGood : (h : Histogram) → h.buckets ≡ buckets → IsGood [] (new_metrics est (some h))
  unfolding new_metrics
  new-IsGood h e = record {
    represents = new_metrics-Represents est (some h);
    hist = h;
    has_histogram = refl;
    has_buckets = e;
  }

  outcomes-Good :
      (h : Histogram) (rss : List (List Result))
      → h.buckets ≡ buckets
      → All (λ rs. All IsMeasured rs) rss
      → (os : List (Outcome est)) × (outcomes est (some h) rss ≡ some os) × Good rss os
  unfolding outcomes
  outcomes-Good h [] e q = ([], refl, tt)
  outcomes-Good h (rs ∷ rss) e q =
      let (m, one, g) = attack-IsGood [] rs (new_metrics est (some h)) q.0 (new-IsGood h e) in
      let (os, rest, gs) = outcomes-Good h rss e q.1 in
      (worker_results m ∷ os, rw (one, rest) refl, (g, gs))

  finish_workers-IsGood :
      (before : List Result) (rss : List (List Result)) (os : List (Outcome est)) (m : Metrics est)
      → IsGood before m
      → Good rss os
      → (m' : Metrics est) × (finish_workers est (m, none) os ≡ (m', none))
        × IsGood (before ++ all_hits rss) m'
  unfolding finish_workers finish_worker
  finish_workers-IsGood before [] [] m g gs = (m, refl, rw (append-nil before) g)
  finish_workers-IsGood before [] (o ∷ os) m g gs = elim gs [ ]
  finish_workers-IsGood before (rs ∷ rss) [] m g gs = elim gs [ ]
  finish_workers-IsGood before (rs ∷ rss) (worker_error e ∷ os) m g gs = elim gs [ ]
  finish_workers-IsGood before (rs ∷ rss) (worker_results w ∷ os) m g gs =
      let (ok, g') = merge-IsGood before rs m w g gs.0 in
      let (m', rest, g2) = finish_workers-IsGood (before ++ rs) rss os (merge est m w).0 g' gs.1 in
      (m', rest, rw (← append_assoc before rs (all_hits rss)) g2)

  -- Over an estimator that takes every latency, with histograms over the same buckets, at least one,
  -- and hits that have a time and took some: however many workers there are and in whatever order they
  -- finish, `Attack` does not panic and returns metrics without an error, and these are the metrics of
  -- all hits of all workers: the number of requests, the bytes, the sum, maximum and minimum of the
  -- latencies, the earliest and latest time and the latest end, the successes, the number of each
  -- status code, and the set of the errors.
  pub attack_all-Represents :
      (h : Histogram) (rss : List (List Result))
      → h.buckets ≡ buckets
      → All (λ rs. All IsMeasured rs) rss
      → (m : Metrics est) × (attack_all est (some h) rss ≡ some (some m))
        × Represents est (all_hits rss) m
  unfolding attack_all returned
  attack_all-Represents h rss e q =
      let (os, made, gs) = outcomes-Good h rss e q in
      let (m, done, g) =
        finish_workers-IsGood [] rss os (new_metrics est (some h)) (new-IsGood h e) gs in
      (m, rw (made, done) refl, g.represents)
