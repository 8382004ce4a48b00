-- ===== src/LoadGenerator/Attack/Forgets.antt =====
-- An error of a worker is lost to a worker that finishes after it.
use guidance_for_building_a.Common.{◌≡◌, refl, ◌∙◌, List, [], ◌∷◌, ◌++◌, Option, none, some, ap}
use guidance_for_building_a.Api.{Error}
use guidance_for_building_a.LoadGenerator.Metrics.{Estimator, Metrics, merge}
use guidance_for_building_a.LoadGenerator.Attack.{
  Outcome, worker_results, finish_worker, finish_workers, returned,
}

module _ (est : Estimator) where
  finish_workers-append :
      (s : Metrics est × Option Error) (os ps : List (Outcome est))
      → finish_workers est s (os ++ ps) ≡ finish_workers est (finish_workers est s os) ps
  unfolding finish_workers
  finish_workers-append s [] ps = refl
  finish_workers-append s (o ∷ os) ps = finish_workers-append (finish_worker est s o) os ps

  returned-none : (s : Metrics est × Option Error) → s.1 ≡ none → returned est s ≡ some s.0
  unfolding returned
  returned-none (results, none) e = refl
  returned-none (results, some err) e = cc e

  finish_last :
      (s : Metrics est × Option Error) (m : Metrics est)
      → (merge est s.0 m).1 ≡ none
      → (results : Metrics est) × (returned est (finish_worker est s (worker_results m))
          ≡ some results)
  unfolding finish_worker returned
  finish_last (results, none) m fine = ((merge est results m).0, refl)
  finish_last (results, some e) m fine =
      ((merge est results m).0, returned-none (merge est results m) fine)

  -- Whichever workers have failed: if the last one to finish has results and these merge, `Attack`
  -- returns metrics and no error.
  pub attack_forgets :
      (results : Metrics est) (os : List (Outcome est)) (m : Metrics est)
      → (merge est (finish_workers est (results, none) os).0 m).1 ≡ none
      → (all : Metrics est) × (returned est
            (finish_workers est (results, none) (os ++ worker_results m ∷ []))
          ≡ some all)
  unfolding finish_workers
  attack_forgets results os m fine =
      let (all, e) = finish_last (finish_workers est (results, none) os) m fine in
      (
        all,
        ap (returned est) (finish_workers-append (results, none) os (worker_results m ∷ [])) ∙ e,
      )
