-- ===== src/Datagen/Budgets/Scanned.antt =====
-- The generator of budgets as a whole: what the bidder's scan of the stored batches reads.
use guidance_for_building_a.Common.{
  All-parts, ℕ, zero, suc, ◌+◌, ◌-◌, ◌^◌, ◌≤◌, ◌<◌, ◌≡◌, refl, ap, ◌∙◌, List, [], ◌∷◌, ◌++◌, Option,
  some, All, length, append_assoc, append-nil, arith,
}
use guidance_for_building_a.Common.Int64.{u64_mod}
use guidance_for_building_a.Api.{Budget}
use guidance_for_building_a.Database.Budgets.RoundTrip.{IsBudget}
use guidance_for_building_a.Database.Consumer.{Consumer, feed}
use guidance_for_building_a.Database.Scans.{
  Received, received, scan_budgets, compressed, all_budgets, scan_budgets-compressed,
}
use guidance_for_building_a.Datagen.Config.{Config, IsRange}
use guidance_for_building_a.Datagen.Keys.{each, keys_between, count_up, each_key_ends}
use guidance_for_building_a.Datagen.Encryptor.{Cipher, IsAes, encrypt, length-encrypt}
use guidance_for_building_a.Datagen.Records.Stored.{amount_between_bounds}
use guidance_for_building_a.Datagen.Budgets.{
  BudgetBatchDb, Generating, add_budget, budget_of, budget_body, budget_generator,
}
use guidance_for_building_a.Datagen.Budgets.Batches.{
  numbered, IsCut, send_last-numbered, IsGenerated, add_budget-IsGenerated,
}

-- What Aerospike delivers of the stored batches.
abbrev pub bins : List BudgetBatchDb → List (Received (Option (List ℕ)))
bins [] = []
bins (r ∷ rs) = received (some r.batch) ∷ bins rs

bins-numbered :
    (i : ℕ) (batches : List (List Budget)) → bins (numbered i batches) ≡ compressed batches
bins-numbered i [] = refl
bins-numbered i (b ∷ batches) = rw (bins-numbered (i + 1) batches) refl

All-all_budgets :
    (P : Budget → Type 0) (batches : List (List Budget))
    → All P (all_budgets batches)
    → All (λ bs. All P bs) batches
All-all_budgets P [] h = tt
All-all_budgets P (b ∷ batches) h =
    let (l, r) = All-parts P b (all_budgets batches) h in (l, All-all_budgets P batches r)

module _ (c : Cipher) (cfg : Config) where
  -- A budget of the campaign with the key, within the configured bounds.
  pub record IsFunded (key : ℕ) (b : Budget) : Type 0 where
    pub id : b.campaign_id ≡ encrypt c key
    pub low : cfg.min_budget ≤ b.available
    pub high : b.available ≤ cfg.max_budget

  abbrev pub Funded : List ℕ → List Budget → Type 0
  Funded [] [] = Unit {0}
  Funded [] (b ∷ bs) = ⊥
  Funded (k ∷ ks) [] = ⊥
  Funded (k ∷ ks) (b ∷ bs) = IsFunded k b × Funded ks bs

  module _ (h : IsAes c) (r : IsRange cfg.min_budget cfg.max_budget) where
    Funded-IsBudget : (ks : List ℕ) (bs : List Budget) → Funded ks bs → All IsBudget bs
    Funded-IsBudget [] [] f = tt
    Funded-IsBudget [] (b ∷ bs) f = elim f [ ]
    Funded-IsBudget (k ∷ ks) [] f = elim f [ ]
    Funded-IsBudget (k ∷ ks) (b ∷ bs) f = (
      record {
        id_length = ap length f.0.id ∙ length-encrypt c h k;
        word = omega (arith, f.0.high, r);
      },
      Funded-IsBudget ks bs f.1,
    )

    module _ (int63 : ℕ → ℕ) (drawn : (i : ℕ) → int63 i < 2 ^ 63) where
      each_budget :
          (n k : ℕ) (so_far : List Budget) (g : Generating)
          → IsGenerated cfg.budget_batch_size so_far g
          → (bs : List Budget) × (g' : Generating) × (each
                (budget_body c cfg int63)
                (count_up n k)
                g
              ≡ some g')
            × IsGenerated cfg.budget_batch_size (so_far ++ bs) g'
            × Funded (count_up n k) bs
      unfolding each count_up budget_body budget_of
      each_budget zero k so_far g m = ([], g, refl, rw (append-nil so_far) m, tt)
      each_budget (suc n) k so_far g m =
          let (a, amount, low, high) =
            amount_between_bounds (int63 k) cfg.min_budget cfg.max_budget r (drawn k) in
          let b : Budget = record { campaign_id = encrypt c k; available = a } in
          let (bs, g', rest, m', f) =
            each_budget n (k + 1) (so_far ++ b ∷ []) (add_budget cfg.budget_batch_size g b)
              (add_budget-IsGenerated cfg.budget_batch_size so_far g b m) in
          (
            b ∷ bs,
            g',
            rw (amount, rest) refl,
            rw (← append_assoc so_far (b ∷ []) bs) m',
            (record { id = refl; low = low; high = high }, f),
          )

      -- For AES, a range of budgets as `Resolve` leaves it, a batch size other than 0, draws of `Int63`
      -- below 2 ^ 63, a highest key below 2 ^ 64 - 1 and fuel of more than the number of keys: the
      -- generator ends with batches numbered from 1 of that size, the last one perhaps
      -- smaller; these hold one budget for each key between `KeyLow` and `KeyHigh`, in order, with
      -- the key's identifier and an amount in the range; and the bidder's scan of them hands exactly
      -- these budgets to its consumer, up to the first that it refuses.
      pub budget_generator-scans :
          {S : Type 0} (consume : Consumer S Budget) (s : S) (fuel : ℕ)
          → 0 < cfg.budget_batch_size
          → cfg.key_high + 1 - cfg.key_low < fuel
          → cfg.key_high + 1 < u64_mod
          → (batches : List (List Budget)) × (budget_generator c cfg int63 fuel
              ≡ some (numbered 1 batches))
            × IsCut cfg.budget_batch_size batches
            × Funded (keys_between cfg.key_low cfg.key_high) (all_budgets batches)
            × (scan_budgets consume s (bins (numbered 1 batches))
                ≡ some (feed consume s (all_budgets batches)))
      unfolding budget_generator
      budget_generator-scans consume s fuel pos enough top =
          let start : Generating = record {
            current_batch = record { id = 1; batch = [] };
            out = [];
          } in
          let fresh : IsGenerated cfg.budget_batch_size [] start = record {
            sent = [];
            out = refl;
            next_id = refl;
            full = tt;
            open_batch = pos;
            whole = refl;
          } in
          let (bs, g, made, m, funded) =
            each_budget (cfg.key_high + 1 - cfg.key_low) cfg.key_low [] start fresh in
          let (batches, sent, cut, all) =
            send_last-numbered cfg.budget_batch_size m.sent g.current_batch.batch pos m.open_batch
              m.full in
          let loop =
            each_key_ends (budget_body c cfg int63) fuel cfg.key_low cfg.key_high start top enough
            ∙ made in
          let whole : all_budgets batches ≡ bs = all ∙ m.whole in
          let keys = keys_between cfg.key_low cfg.key_high in
          let funded' : Funded keys (all_budgets batches) = rw whole funded in
          (
            batches,
            rw (loop, m.out, m.next_id) (ap some sent),
            cut,
            funded',
            rw (bins-numbered 1 batches) (
                scan_budgets-compressed consume batches s (
                  All-all_budgets IsBudget batches
                    (Funded-IsBudget keys (all_budgets batches) funded'))),
          )
