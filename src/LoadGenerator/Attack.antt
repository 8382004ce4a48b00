-- ===== src/LoadGenerator/Attack.antt =====
-- `Attack` and the loop of `attack` of tools/load-generator/code/load_generator/attack.go: what
-- becomes of the results of the workers. The hits of a worker are an argument, up to the one after
-- which it is stopped; so is the order in which the workers take the mutex. Pacing and HTTP are left
-- out. `none` is a panic.
pub mod Accounts
pub mod Forgets
use guidance_for_building_a.Common.{List, [], ◌∷◌, Option, none, some, ◌>>=◌}
use guidance_for_building_a.Api.{Error}
use guidance_for_building_a.LoadGenerator.Histogram.{Histogram}
use guidance_for_building_a.LoadGenerator.Metrics.{
  Result, Estimator, Metrics, new_metrics, add, merge,
}

module _ (est : Estimator) where
  -- What a worker returns: its metrics or an error.
  pub data Outcome : Type 0 where
    worker_error : Error → Outcome
    worker_results : Metrics est → Outcome

  -- `attack`, from the metrics on
  unfoldable pub attack : Metrics est → List Result → Option Outcome
  attack m [] = some (worker_results m)
  attack m (r ∷ rs) = do
    (m', e) ← add est m r
    elim e [ none ↦ attack m' rs | some err ↦ some (worker_error err) ]

  -- Under the mutex: `results` and `err`.
  unfoldable pub finish_worker : Metrics est × Option Error → Outcome → Metrics est × Option Error
  finish_worker (results, err) (worker_error e) = (results, some e)
  finish_worker (results, none) (worker_results m) = ((merge est results m).0, none)
  finish_worker (results, some e) (worker_results m) = merge est results m

  unfoldable pub finish_workers :
      Metrics est × Option Error → List Outcome → Metrics est × Option Error
  finish_workers s [] = s
  finish_workers s (o ∷ os) = finish_workers (finish_worker s o) os

  -- `return nil, err` or `return results, nil`
  unfoldable pub returned : Metrics est × Option Error → Option (Metrics est)
  returned (results, none) = some results
  returned (results, some e) = none

  -- The outcomes of workers that start from new metrics.
  unfoldable pub outcomes : Option Histogram → List (List Result) → Option (List Outcome)
  outcomes histogram [] = some []
  outcomes histogram (rs ∷ rss) = do
    o ← attack (new_metrics est histogram) rs
    os ← outcomes histogram rss
    some (o ∷ os)

  -- `Attack`: the metrics, or nothing in the case of an error.
  unfoldable pub attack_all : Option Histogram → List (List Result) → Option (Option (Metrics est))
  attack_all histogram rss = do
    os ← outcomes histogram rss
    some (returned (finish_workers (new_metrics est histogram, none) os))
