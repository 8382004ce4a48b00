-- ===== src/Datagen/Buffer/Conserved.antt =====
-- No item is lost or written twice, whoever flushes.
use guidance_for_building_a.Common.{
  ℕ, ◌≤◌, ◌<◌, ◌≡◌, refl, ap, sym, ◌∙◌, subst, List, [], ◌∷◌, ◌++◌, length, take, drop,
  take-append-drop, append_assoc, append-nil, leb, length-append, Bool-cases, inl, inr, All,
  All-append, length-take, arith,
}
use mathlib.Core.List.{Perm, perm_append_comm}
use mathlib.Core.List.Perm
use guidance_for_building_a.Datagen.Buffer.{
  Table, Answer, failed, unprocessed, put_many_batch_limit, cut, returned, flush_batch_from_buffer,
  put_buffered, Connection, Writes, no_write, write, Step, adds, flushes, Reach, here, next,
}

abbrev pub IsBatch : {A : Type 0} → List A → Type 0
IsBatch batch = (0 < length batch) × (length batch ≤ put_many_batch_limit)

record IsConserved {A : Type 0} (c : Connection A) : Type 0 where
  conserved : Perm c.put (c.stored ++ c.buffer)
  batches : All IsBatch c.calls

module _ {A : Type 0} (table : Table) where
  cut-IsBatch : (buffer : List A) → 0 < length buffer → IsBatch (take (cut buffer) buffer)
  unfolding cut
  cut-IsBatch buffer some_left = ground (arith, length-take (cut buffer) buffer)

  regroup :
      (put stored front back done again : List A)
      → Perm put (stored ++ (front ++ back))
      → Perm front (done ++ again)
      → Perm put ((stored ++ done) ++ (back ++ again))
  regroup put stored front back done again h w = Perm.trans h (
      subst (Perm (stored ++ (front ++ back))) (sym (append_assoc stored done (back ++ again))) (
        Perm.append_left stored (
          Perm.trans (Perm.append_right back w) (
            subst (λ l. Perm l (done ++ (back ++ again))) (sym (append_assoc done again back))
              (Perm.append_left done (perm_append_comm again back))))))

  flush-Perm :
      (put stored buffer : List A) (answer : Answer A) (done : List A)
      → 0 < length buffer
      → Writes table (take (cut buffer) buffer) answer done
      → Perm put (stored ++ buffer)
      → Perm put ((stored ++ done) ++ (flush_batch_from_buffer table buffer answer).0)
  unfolding flush_batch_from_buffer
  flush-Perm put stored [] answer done some_left w h = absurd (omega arith)
  flush-Perm put stored (x ∷ xs) (failed e) done some_left no_write h =
      subst (λ l. Perm put (l ++ x ∷ xs)) (sym (append-nil stored)) h
  flush-Perm put stored (x ∷ xs) (unprocessed items) done some_left (write w) h =
      let n : ℕ = cut (x ∷ xs) in
      regroup put stored (take n (x ∷ xs)) (drop n (x ∷ xs)) done (returned table items)
        (subst (λ l. Perm put (stored ++ l)) (sym (take-append-drop n (x ∷ xs))) h) w

  step-IsConserved : {c d : Connection A} → Step table c d → IsConserved c → IsConserved d
  step-IsConserved (adds c item) h = record {
    conserved =
        subst (Perm (c.put ++ item ∷ [])) (append_assoc c.stored c.buffer (item ∷ []))
          (Perm.append_right (item ∷ []) h.conserved);
    batches = h.batches;
  }
  step-IsConserved (flushes c answer done some_left w) h = record {
    conserved = flush-Perm c.put c.stored c.buffer answer done some_left w h.conserved;
    batches =
        All-append IsBatch c.calls (take (cut c.buffer) c.buffer ∷ []) h.batches
          (cut-IsBatch c.buffer some_left, tt);
  }

  -- `PutBuffered` is one step or two.
  pub put_buffered-Reach :
      (c : Connection A) (item : A) (answer : Answer A) (done : List A)
      → Writes table (take (cut (c.buffer ++ item ∷ [])) (c.buffer ++ item ∷ [])) answer done
      → (d : Connection A) × Reach table c d
        × (d.buffer ≡ (put_buffered table c.buffer item answer).0)
        × (d.put ≡ c.put ++ item ∷ [])
  unfolding put_buffered
  put_buffered-Reach c item answer done w =
      let buffer : List A = c.buffer ++ item ∷ [] in
      let added : Connection A = record c { put = c.put ++ item ∷ []; buffer = buffer } in
      let longer = length-append c.buffer (item ∷ []) in
      elim (Bool-cases (leb put_many_batch_limit (length buffer))) [
        | inl full ↦ (
          record added {
            buffer = (flush_batch_from_buffer table buffer answer).0;
            stored = c.stored ++ done;
            calls = c.calls ++ take (cut buffer) buffer ∷ [];
          },
          next (next here (adds c item)) (flushes added answer done (omega (arith, longer)) w),
          rw full refl,
          refl,
        )
        | inr room ↦ (added, next here (adds c item), rw room refl, refl)
      ]

  -- However the writer and the ticker interleave, and whichever writes fail or come back unprocessed,
  -- as long as `BatchWriteItem` stores what it does not return: the items that were put are, in some
  -- order, those in the table and those in the buffer; each call has from 1 to 25 items; and when the
  -- buffer is empty, the table holds every item once for each time it was put.
  pub Reach-conserved :
      {c : Connection A}
      → Reach table (record { put = []; buffer = []; stored = []; calls = [] }) c
      → Perm c.put (c.stored ++ c.buffer)
        × All IsBatch c.calls
        × (c.buffer ≡ [] → Perm c.put c.stored)
  Reach-conserved {c} r =
      let h = conserved_at r in
      (
        h.conserved,
        h.batches,
        λ e. subst (Perm c.put) (ap (◌++◌ c.stored) e ∙ append-nil c.stored) h.conserved,
      )
    where
      conserved_at :
          {d : Connection A}
          → Reach table (record { put = []; buffer = []; stored = []; calls = [] }) d
          → IsConserved d
      conserved_at here = record { conserved = Perm.refl []; batches = tt }
      conserved_at (next q s) = step-IsConserved s (conserved_at q)
