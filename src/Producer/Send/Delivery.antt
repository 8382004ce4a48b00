-- ===== src/Producer/Send/Delivery.antt =====
-- What a call of `sendRequest` delivers, where the answers are those that Kinesis documents: one
-- result for each record, and the number of those with an error.
use mathlib.Core.List.{Perm, perm_middle}
use mathlib.Core.List.Perm
use guidance_for_building_a.Common.{
  ℕ, ◌+◌, ◌≡◌, ◌≢◌, ==_iff, subst, refl, List, [], ◌∷◌, ◌++◌, Option, none, some, length,
  Bool-cases, Option-cases, inl, inr, ◌==◌, arith, append_assoc,
}
use guidance_for_building_a.Producer.Compile.{Entry}
use guidance_for_building_a.Producer.Send.{
  Status, stored, error_code, Output, failures, Ending, delivered, panicked, refused, Sent,
  send_request,
}

-- The records that the response marks as stored.
unfoldable pub acknowledged : List Entry → List Status → List Entry
acknowledged records [] = []
acknowledged [] (r ∷ rest) = []
acknowledged (e ∷ records) (stored ∷ rest) = e ∷ acknowledged records rest
acknowledged (e ∷ records) (error_code c ∷ rest) = acknowledged records rest

unfoldable pub error_count : List Status → ℕ
error_count [] = 0
error_count (stored ∷ rest) = error_count rest
error_count (error_code c ∷ rest) = error_count rest + 1

-- The answer to a request with `n` records.
pub record IsAnswer (n : ℕ) (out : Output) : Type 0 where
  pub each : length out.results ≡ n
  pub counted : out.failed_record_count ≡ error_count out.results

-- A response with one result for each record splits the records: those stored and those failed are
-- all of them, none twice; and as many failed as it counts.
pub failures-splits :
    (records : List Entry) (results : List Status)
    → length results ≡ length records
    → (failed : List Entry) × (failures records results ≡ some failed)
      × Perm (acknowledged records results ++ failed) records
      × (length failed ≡ error_count results)
unfolding failures acknowledged error_count
failures-splits [] [] h = ([], refl, Perm.refl [], refl)
failures-splits [] (r ∷ rest) h = absurd (omega arith)
failures-splits (e ∷ records) [] h = absurd (omega arith)
failures-splits (e ∷ records) (stored ∷ rest) h =
    let (failed, f, p, n) = failures-splits records rest (omega arith) in
    (failed, f, Perm.cons e p, n)
failures-splits (e ∷ records) (error_code c ∷ rest) h =
    let (failed, f, p, n) = failures-splits records rest (omega arith) in
    (
      e ∷ failed,
      rw f,
      Perm.trans (perm_middle (acknowledged records rest) failed) (Perm.cons e p),
      omega (arith, n),
    )

-- Every answer is one to the request that stands before it.
abbrev pub Answers : List Entry → List (Option Output) → Type 0
Answers records [] = Unit
Answers records (none ∷ outs) = Unit
Answers records (some out ∷ outs) =
    IsAnswer (length records) out
    × ((failed : List Entry) → failures records out.results ≡ some failed → Answers failed outs)

-- All that was stored in the rounds of a call.
unfoldable pub stored_in : List (List Entry × Output) → List Entry
stored_in [] = []
stored_in ((records, out) ∷ rounds) = acknowledged records out.results ++ stored_in rounds

nil_of_length : (xs : List Entry) → length xs ≡ 0 → xs ≡ []
nil_of_length [] h = refl
nil_of_length (x ∷ xs) h = absurd (omega arith)

-- What the end of a call says of the records that it was given.
abbrev pub Accounts : Ending → Sent → List Entry → Type 0
Accounts delivered t records = Perm (stored_in t.rounds) records
Accounts refused t records = Perm (stored_in t.rounds ++ t.records) records
Accounts panicked t records = ⊥

add-Accounts :
    (ending : Ending) (t : Sent) (records failed : List Entry) (out : Output)
    → Perm (acknowledged records out.results ++ failed) records
    → Accounts ending t failed
    → Accounts ending (record t { rounds = (records, out) ∷ t.rounds }) records
unfolding stored_in
add-Accounts delivered t records failed out p a =
    Perm.trans (Perm.append_left (acknowledged records out.results) a) p
add-Accounts refused t records failed out p a =
    rw append_assoc (Perm.trans (Perm.append_left (acknowledged records out.results) a) p)
add-Accounts panicked t records failed out p a = a

-- If every answer has one result for each record of its request and the number of those that
-- failed, a call that delivers has stored each of its records exactly once; a call that is refused
-- has stored some of them and still holds exactly the others; no call panics.
pub send_request-Accounts :
    (retries : ℕ) (records : List Entry) (outs : List (Option Output)) (t : Sent)
    → Answers records outs
    → send_request retries records outs ≡ some t
    → Accounts t.ending t records
unfolding send_request
send_request-Accounts retries records [] t a h = cc
send_request-Accounts retries records (none ∷ outs) t a h =
    let e : record { ending = refused; records = records; retries = retries; rounds = [] } ≡ t =
      cc h in
    rw (← e) (unfold stored_in in Perm.refl records)
send_request-Accounts retries records (some out ∷ outs) t (answer, rest) h =
    let (failed, f, p, n) = failures-splits records out.results answer.each in
    elim (Bool-cases (out.failed_record_count == 0)) [
      | inl done ↦
          let e = rw (done, send_request) at h in
          let empty =
            nil_of_length failed
              (omega (arith, n, answer.counted, (==_iff out.failed_record_count 0).0 done)) in
          let whole = subst (λ l. Perm (acknowledged records out.results ++ l) records) empty p in
          last e whole
      | inr more ↦
          let h' = rw (more, f, send_request) at h in
          elim (Option-cases (send_request (retries + 1) failed outs)) [
            | inl e ↦ cc (rw e at h')
            | inr (t', e) ↦
                let same : record t' { rounds = (records, out) ∷ t'.rounds } ≡ t =
                  cc (rw e at h') in
                rw (← same) (
                  add-Accounts t'.ending t' records failed out p
                    (send_request-Accounts (retries + 1) failed outs t' (rest failed f) e))
          ]
    ]
  where
    last :
        {u : Sent}
        → some (record {
          ending = delivered;
          records = records;
          retries = retries;
          rounds = (records, out) ∷ [];
        })
          ≡ some u
        → Perm (acknowledged records out.results ++ []) records
        → Accounts u.ending u records
    last {u} e whole =
        let e' : record {
          ending = delivered;
          records = records;
          retries = retries;
          rounds = (records, out) ∷ [];
        }
            ≡ u =
          cc e in
        rw (← e') (unfold stored_in in whole)

-- The loop ends at the first answer without failures, if no error or panic ends it before.
pub send_request_ends :
    (retries : ℕ) (records : List Entry) (pre : List (Option Output)) (out : Output)
    (post : List (Option Output))
    → out.failed_record_count ≡ 0
    → send_request retries records (pre ++ some out ∷ post) ≢ none
unfolding send_request
send_request_ends retries records [] out post h = ground arith
send_request_ends retries records (none ∷ pre) out post h = λ e. cc e
send_request_ends retries records (some o ∷ pre) out post h =
    elim (Option-cases (failures records o.results)) [
      | inl f ↦ ground arith
      | inr (failed, f) ↦ ground (arith, send_request_ends (retries + 1) failed pre out post h)
    ]
