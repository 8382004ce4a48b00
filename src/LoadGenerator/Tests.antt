-- ===== src/LoadGenerator/Tests.antt =====
-- Concrete inputs for the theorems about the load generator.
use guidance_for_building_a.Common.{ℕ, ◌≡◌, refl, List, [], ◌∷◌, ◌++◌, none, some, arith}
use guidance_for_building_a.Api.{Error}
use guidance_for_building_a.LoadGenerator.Histogram.{Histogram}
use guidance_for_building_a.LoadGenerator.Metrics.{
  Result, Estimator, Metrics, new_metrics, merge, merge_latencies, merge_histogram,
}
use guidance_for_building_a.LoadGenerator.Metrics.Summary.{IsMeasured}
use guidance_for_building_a.LoadGenerator.Metrics.Merged.{Represents}
use guidance_for_building_a.LoadGenerator.Attack.{
  worker_error, worker_results, finish_workers, finish_worker, returned, attack_all,
}
use guidance_for_building_a.LoadGenerator.Attack.Forgets.{attack_forgets}
use guidance_for_building_a.LoadGenerator.Attack.Accounts.{IsTotal, all_hits, attack_all-Represents}

-- An estimator that keeps all samples.
abbrev exact : Estimator
exact = record {
  Digest = List ℕ;
  new = [];
  add = λ d x. (x ∷ d, none);
  merge = λ d e. (d ++ e, none);
}

exact-IsTotal : IsTotal exact
exact-IsTotal = record { adds = λ d x. refl; merges = λ d e. refl }

abbrev three_buckets : Histogram
three_buckets = record { buckets = 0 ∷ 10 ∷ 20 ∷ []; counts = []; total = 0 }

abbrev fast : Result
fast = record {
  code = 200;
  timestamp = 100;
  latency = 7;
  bytes_out = 50;
  bytes_in = 60;
  error = [];
}

abbrev late : Result
late = record {
  code = 504;
  timestamp = 120;
  latency = 25;
  bytes_out = 50;
  bytes_in = 0;
  error = b't' ∷ [];
}

attack_all-Represents_example :
    (m : Metrics exact) × (attack_all exact
        (some three_buckets)
        ((fast ∷ late ∷ []) ∷ (late ∷ []) ∷ [])
      ≡ some (some m))
    × Represents exact (all_hits ((fast ∷ late ∷ []) ∷ (late ∷ []) ∷ [])) m
attack_all-Represents_example =
    attack_all-Represents exact exact-IsTotal (0 ∷ 10 ∷ 20 ∷ []) (omega arith) three_buckets
      ((fast ∷ late ∷ []) ∷ (late ∷ []) ∷ []) refl (((fast_is, (late_is, tt)), ((late_is, tt), tt)))
  where
    fast_is : IsMeasured fast
    fast_is = record { started = omega arith; took = omega arith; in_range = omega arith }

    late_is : IsMeasured late
    late_is = record { started = omega arith; took = omega arith; in_range = omega arith }

abbrev broken : Error
broken = Error.other 1

attack_forgets_example :
    (all : Metrics exact) × (returned exact (
        finish_workers exact
          (new_metrics exact none, none)
          ((worker_error broken ∷ []) ++ worker_results (new_metrics exact none) ∷ []))
      ≡ some all)
attack_forgets_example =
    attack_forgets exact (new_metrics exact none) (worker_error broken ∷ [])
      (new_metrics exact none)
      (unfold finish_workers finish_worker merge merge_latencies merge_histogram new_metrics in
        refl)
