-- ===== src/Database/Segments/Errors.antt =====
-- The error of a parallel scan: it is nil exactly if that of every worker is.
use guidance_for_building_a.Common.{
  ℕ, zero, suc, ◌≡◌, ◌↔◌, refl, ap, sym, ◌∙◌, List, [], ◌∷◌, Bool, true, false, Option, none, some,
  get_elem?, set, replicate, Option-cases, inl, inr,
}
use guidance_for_building_a.Api.{Error}
use guidance_for_building_a.Database.Consumer.{Consumer}
use guidance_for_building_a.Database.Segments.{
  Response, Worker, running, returned, Scan, start, finish, answer, run,
}

-- No worker has returned an error.
unfoldable pub succeeded : List Worker → Bool
succeeded [] = true
succeeded (running ∷ ws) = succeeded ws
succeeded (returned none ∷ ws) = succeeded ws
succeeded (returned (some e) ∷ ws) = false

succeeded-replicate : (n : ℕ) → succeeded (replicate n running) ≡ true
unfolding succeeded
succeeded-replicate zero = refl
succeeded-replicate (suc n) = succeeded-replicate n

succeeded-set-none :
    (ws : List Worker) (i : ℕ)
    → get_elem? ws i ≡ some running
    → succeeded (set ws i (returned none)) ≡ succeeded ws
unfolding succeeded
succeeded-set-none [] i h = refl
succeeded-set-none (w ∷ ws) zero h = let same : running ≡ w = cc h in rw (← same) refl
succeeded-set-none (running ∷ ws) (suc i) h = succeeded-set-none ws i h
succeeded-set-none (returned none ∷ ws) (suc i) h = succeeded-set-none ws i h
succeeded-set-none (returned (some e) ∷ ws) (suc i) h = refl

succeeded-set-some :
    (ws : List Worker) (i : ℕ) (e : Error)
    → get_elem? ws i ≡ some running
    → succeeded (set ws i (returned (some e))) ≡ false
unfolding succeeded
succeeded-set-some [] i e h = cc h
succeeded-set-some (w ∷ ws) zero e h = refl
succeeded-set-some (running ∷ ws) (suc i) e h = succeeded-set-some ws i e h
succeeded-set-some (returned none ∷ ws) (suc i) e h = succeeded-set-some ws i e h
succeeded-set-some (returned (some e') ∷ ws) (suc i) e h = refl

abbrev is_none : Option Error → Bool
is_none none = true
is_none (some e) = false

is_none_lem : (e : Option Error) → is_none e ≡ true → e ≡ none
is_none_lem none h = refl
is_none_lem (some e) h = cc h

module _ {S A : Type 0} (consume : Consumer S A) where
  finish_lem :
      (scan : Scan S) (i : ℕ) (s : S) (w : Worker)
      → get_elem? scan.workers i ≡ some running
      → is_none scan.last_error ≡ succeeded scan.workers
      → is_none (finish consume scan i s w).last_error
        ≡ succeeded (finish consume scan i s w).workers
  unfolding finish
  finish_lem scan i s running h inv = inv
  finish_lem scan i s (returned none) h inv = inv ∙ sym (succeeded-set-none scan.workers i h)
  finish_lem scan i s (returned (some e)) h inv = sym (succeeded-set-some scan.workers i e h)

  answer_lem :
      (scan : Scan S) (i : ℕ) (response : Response A)
      → is_none scan.last_error ≡ succeeded scan.workers
      → is_none (answer consume scan i response).last_error
        ≡ succeeded (answer consume scan i response).workers
  unfolding answer
  answer_lem scan i response inv = elim (Option-cases (get_elem? scan.workers i)) [
    | inl e ↦ rw (answer, e) inv
    | inr (running, e) ↦ rw (answer, e) (finish_lem scan i _ _ e inv)
    | inr (returned x, e) ↦ rw (answer, e) inv
  ]

  run_lem :
      (events : List (ℕ × Response A)) (scan : Scan S)
      → is_none scan.last_error ≡ succeeded scan.workers
      → is_none (run consume scan events).last_error ≡ succeeded (run consume scan events).workers
  unfolding run
  run_lem [] scan inv = inv
  run_lem ((i, response) ∷ rest) scan inv = run_lem rest _ (answer_lem scan i response inv)

  -- For any number of workers, and however the answers to them come, the error that a parallel
  -- scan keeps is nil exactly if no worker has returned one.
  pub run_error :
      (workers : ℕ) (s : S) (events : List (ℕ × Response A))
      → let scan = run consume (start workers s) events in
        ((scan.last_error ≡ none) ↔ (succeeded scan.workers ≡ true))
  unfolding start
  run_error workers s events =
      let inv = run_lem events (start workers s) (sym (succeeded-replicate workers)) in
      let scan = run consume (start workers s) events in
      (λ e. sym inv ∙ ap is_none e, λ e. is_none_lem scan.last_error (inv ∙ e))
