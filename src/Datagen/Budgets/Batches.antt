-- ===== src/Datagen/Budgets/Batches.antt =====
-- The batches that the generator of budgets makes, and that the bidder reads every budget back.
use guidance_for_building_a.Common.{
  ℕ, suc, ◌+◌, ◌≤◌, ◌<◌, ◌≡◌, refl, ap, sym, ◌∙◌, List, [], ◌∷◌, ◌++◌, ◌==◌, ==_iff, All,
  All-append, length, length-append, append_assoc, append-nil, arith, Bool-cases, inl, inr,
}
use guidance_for_building_a.Api.{Budget}
use guidance_for_building_a.Database.Bytes.{put_uint64}
use guidance_for_building_a.Database.Budgets.{compress_all}
use guidance_for_building_a.Database.Scans.{all_budgets}
use guidance_for_building_a.Datagen.Budgets.{
  BudgetBatchDb, append_budgets, budget_batch_compress, Generating, add_budget, send_last,
}

append_budgets-compress_all :
    (bytes : List ℕ) (bs : List Budget) → append_budgets bytes bs ≡ bytes ++ compress_all bs
unfolding append_budgets compress_all
append_budgets-compress_all bytes [] = sym (append-nil bytes)
append_budgets-compress_all bytes (b ∷ bs) =
    append_budgets-compress_all ((bytes ++ b.campaign_id) ++ put_uint64 b.available) bs
    ∙ append_assoc (bytes ++ b.campaign_id) (put_uint64 b.available) (compress_all bs)
    ∙ append_assoc bytes b.campaign_id (put_uint64 b.available ++ compress_all bs)

-- Batches in the format of the bidder, numbered from `i` on.
abbrev pub numbered : ℕ → List (List Budget) → List BudgetBatchDb
numbered i [] = []
numbered i (bs ∷ batches) =
    record { id = i; batch_size = length bs; batch = compress_all bs } ∷ numbered (i + 1) batches

budget_batch_compress_lem :
    (i : ℕ) (bs : List Budget)
    → budget_batch_compress (record { id = i; batch = bs })
      ≡ record { id = i; batch_size = length bs; batch = compress_all bs }
unfolding budget_batch_compress
budget_batch_compress_lem i bs = rw (append_budgets-compress_all [] bs) refl

numbered_snoc :
    (i : ℕ) (batches : List (List Budget)) (bs : List Budget)
    → numbered i batches
        ++ budget_batch_compress (record { id = i + length batches; batch = bs }) ∷ []
      ≡ numbered i (batches ++ bs ∷ [])
numbered_snoc i [] bs =
    let same : i + 0 ≡ i = omega arith in rw (same, budget_batch_compress_lem i bs) refl
numbered_snoc i (b ∷ batches) bs =
    let same : i + suc (length batches) ≡ i + 1 + length batches = omega arith in
    rw same (
      ap (◌∷◌ (record { id = i; batch_size = length b; batch = compress_all b }))
        (numbered_snoc (i + 1) batches bs))

all_budgets_snoc :
    (batches : List (List Budget)) (bs : List Budget)
    → all_budgets (batches ++ bs ∷ []) ≡ all_budgets batches ++ bs
all_budgets_snoc [] bs = append-nil bs
all_budgets_snoc (b ∷ batches) bs =
    ap (◌++◌ b) (all_budgets_snoc batches bs) ∙ sym (append_assoc b (all_budgets batches) bs)

-- Every batch but the last has `size` budgets, and none is empty.
pub IsCut : ℕ → List (List Budget) → Type 0
IsCut size [] = Unit {0}
IsCut size (b ∷ []) = (0 < length b) × (length b ≤ size)
IsCut size (b ∷ c ∷ batches) = (length b ≡ size) × IsCut size (c ∷ batches)

IsCut-full :
    (size : ℕ) (batches : List (List Budget))
    → 0 < size
    → All (λ (b : List Budget). length b ≡ size) batches
    → IsCut size batches
unfolding IsCut
IsCut-full size [] pos h = tt
IsCut-full size (b ∷ []) pos h = (omega (arith, h.0), omega (arith, h.0))
IsCut-full size (b ∷ c ∷ batches) pos h = (h.0, IsCut-full size (c ∷ batches) pos h.1)

IsCut-snoc :
    (size : ℕ) (batches : List (List Budget)) (last : List Budget)
    → 0 < length last
    → length last ≤ size
    → All (λ (b : List Budget). length b ≡ size) batches
    → IsCut size (batches ++ last ∷ [])
unfolding IsCut
IsCut-snoc size [] last pos le h = (pos, le)
IsCut-snoc size (b ∷ []) last pos le h = (h.0, (pos, le))
IsCut-snoc size (b ∷ c ∷ batches) last pos le h =
    (h.0, IsCut-snoc size (c ∷ batches) last pos le h.1)

-- What was generated so far: full batches that were sent, and a batch that is not full.
pub record IsGenerated (size : ℕ) (so_far : List Budget) (g : Generating) : Type 0 where
  pub sent : List (List Budget)
  pub out : g.out ≡ numbered 1 sent
  pub next_id : g.current_batch.id ≡ 1 + length sent
  pub full : All (λ (b : List Budget). length b ≡ size) sent
  pub open_batch : length g.current_batch.batch < size
  pub whole : all_budgets sent ++ g.current_batch.batch ≡ so_far

pub add_budget-IsGenerated :
    (size : ℕ) (so_far : List Budget) (g : Generating) (b : Budget)
    → IsGenerated size so_far g
    → IsGenerated size (so_far ++ b ∷ []) (add_budget size g b)
unfolding add_budget
add_budget-IsGenerated size so_far g b h =
    let batch : List Budget = g.current_batch.batch ++ b ∷ [] in
    let longer = length-append g.current_batch.batch (b ∷ []) in
    let whole : all_budgets h.sent ++ batch ≡ so_far ++ b ∷ [] =
      sym (append_assoc (all_budgets h.sent) g.current_batch.batch (b ∷ []))
      ∙ ap (λ l. l ++ b ∷ []) h.whole in
    elim (Bool-cases (length batch == size)) [
      | inl closes ↦ rw closes (record {
        sent = h.sent ++ batch ∷ [];
        out =
            ap
              (λ l.
                l ++ budget_batch_compress (record { id = g.current_batch.id; batch = batch }) ∷ [])
              h.out
            ∙ ap
                (λ i.
                  numbered 1 h.sent
                  ++ budget_batch_compress (record { id = i; batch = batch }) ∷ [])
                h.next_id
            ∙ numbered_snoc 1 h.sent batch;
        next_id = omega (arith, h.next_id, length-append h.sent (batch ∷ []));
        full =
            All-append (λ (l : List Budget). length l ≡ size) h.sent (batch ∷ []) h.full
              ((==_iff (length batch) size).0 closes, tt);
        open_batch = omega (arith, h.open_batch);
        whole =
            append-nil (all_budgets (h.sent ++ batch ∷ [])) ∙ all_budgets_snoc h.sent batch ∙ whole;
      })
      | inr stays ↦ rw stays (record {
        sent = h.sent;
        out = h.out;
        next_id = h.next_id;
        full = h.full;
        open_batch = ground (arith, h.open_batch, longer);
        whole = whole;
      })
    ]

-- The batches that are sent once the last one is, too.
pub send_last-numbered :
    (size : ℕ) (sent : List (List Budget)) (current : List Budget)
    → 0 < size
    → length current < size
    → All (λ (b : List Budget). length b ≡ size) sent
    → (batches : List (List Budget)) × (send_last (numbered 1 sent) (1 + length sent) current
        ≡ numbered 1 batches)
      × IsCut size batches
      × (all_budgets batches ≡ all_budgets sent ++ current)
unfolding send_last
send_last-numbered size sent [] pos short full =
    (sent, refl, IsCut-full size sent pos full, sym (append-nil (all_budgets sent)))
send_last-numbered size sent (b ∷ bs) pos short full = (
  sent ++ (b ∷ bs) ∷ [],
  numbered_snoc 1 sent (b ∷ bs),
  IsCut-snoc size sent (b ∷ bs) (omega arith) (omega (arith, short)) full,
  all_budgets_snoc sent (b ∷ bs),
)
