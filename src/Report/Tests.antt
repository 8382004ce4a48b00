-- ===== src/Report/Tests.antt =====
-- Two reports of a load generator.
use guidance_for_building_a.Common.{◌≡◌, refl, [], ◌∷◌, true, some, arith}
use guidance_for_building_a.LoadGenerator.Histogram.{Histogram}
use guidance_for_building_a.Report.{
  Metrics, no_metrics, each_equal, compatible_with, ensure_histogram_compatibility,
  aggregate_metrics,
}
use guidance_for_building_a.Report.Sums.{IsCounted}
use guidance_for_building_a.Report.Whole.{IsAggregate, aggregate_metrics-IsAggregate}

abbrev first_counts : Histogram
first_counts = record { buckets = 0 ∷ 10 ∷ []; counts = 3 ∷ 1 ∷ []; total = 4 }

abbrev second_counts : Histogram
second_counts = record { buckets = 0 ∷ 10 ∷ []; counts = 2 ∷ 0 ∷ []; total = 2 }

abbrev first : Metrics
first = record no_metrics { histogram = some first_counts; requests = 4 }

abbrev second : Metrics
second = record no_metrics { histogram = some second_counts; requests = 2; errors = (7 ∷ []) ∷ [] }

abbrev first_counted : IsCounted first
first_counted = record { histogram = first_counts; present = refl; sized = refl }

abbrev second_counted : IsCounted second
second_counted = record { histogram = second_counts; present = refl; sized = refl }

fits : ensure_histogram_compatibility (first ∷ second ∷ []) ≡ some true
unfolding ensure_histogram_compatibility compatible_with each_equal
fits = refl

aggregate_metrics-IsAggregate_example :
    (m : Metrics) × (aggregate_metrics 9 (first ∷ second ∷ []) ≡ some (some m))
    × IsAggregate (0 ∷ 10 ∷ []) (first ∷ second ∷ []) m
aggregate_metrics-IsAggregate_example =
    aggregate_metrics-IsAggregate 9 first (second ∷ []) first_counted (second_counted, tt)
      (omega arith) fits (omega arith) (omega arith) (omega arith)
