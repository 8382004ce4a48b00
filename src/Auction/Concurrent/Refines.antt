-- ===== src/Auction/Concurrent/Refines.antt =====
-- The goroutines in `chooseCampaign` make only the steps of Auction/Concurrent.
use guidance_for_building_a.Common.{
  ◌≡◌, ◌⊎◌, refl, ap, sym, ◌∙◌, subst, List, [], ◌∷◌, ◌++◌, append_assoc, some, All, All-append,
  All-parts, inl, inr,
}
use guidance_for_building_a.Cache.Campaigns
use guidance_for_building_a.Cache.Campaigns.{CampaignCache}
use guidance_for_building_a.Cache.Budgets.{BudgetState, free}
use guidance_for_building_a.Auction.Concurrent.{
  Hold, Running, Step, reserves, frees, wins, Reach, here, next,
}
use guidance_for_building_a.Auction.Concurrent.Threads.{
  Position, reserving, freeing, Thread, Move, reserve_one, select_none, select_one, free_one,
  keep_one, System, Turn, turn, Run, new_thread, held_by,
}
use guidance_for_building_a.Auction.Concurrent.Threads
use guidance_for_building_a.Auction.Concurrent.Placed.{indices, IsThread, kept-Left, Move-IsThread}

-- No step of the calls, or one.
abbrev pub Ahead : Running → Running → Type 0
Ahead c d = (c ≡ d) ⊎ Step c d

held_by-append : (xs ys : List Thread) → held_by (xs ++ ys) ≡ held_by xs ++ held_by ys
unfolding held_by
held_by-append [] ys = refl
held_by-append (x ∷ xs) ys =
    ap (λ l. x.holds ++ l) (held_by-append xs ys)
    ∙ sym (append_assoc x.holds (held_by xs) (held_by ys))

module _ (campaigns : CampaignCache) where
  -- Among the reservations of the others, `pre` and `post`, a step of a goroutine is none or one.
  Move-Step :
      {b b' : BudgetState} {t t' : Thread} {kept : List Hold}
      → Move campaigns b t b' t' kept
      → IsThread campaigns t
      → (pre post won : List Hold)
      → Ahead
          (record { budgets = b; held = pre ++ (t.holds ++ post); won = won })
          (record { budgets = b'; held = pre ++ (t'.holds ++ post); won = kept ++ won })
  unfolding indices
  Move-Step (reserve_one b is w rest holds campaign h b' cached cpm done) v pre post won =
      let c : Running = record { budgets = b; held = pre ++ (holds ++ post); won = won } in
      let split : pre ++ (holds ++ post) ≡ (pre ++ holds) ++ post =
        sym (append_assoc pre holds post) in
      let joined : (pre ++ holds) ++ h ∷ post ≡ pre ++ ((holds ++ h ∷ []) ++ post) =
        append_assoc pre holds (h ∷ post)
        ∙ ap (λ l. pre ++ l) (sym (append_assoc holds (h ∷ []) post)) in
      inr (
        subst (λ l. Step c (record { budgets = b'; held = l; won = won })) joined
          (reserves c (pre ++ holds) h post b' split done))
  Move-Step (select_none b is w holds none_left) v pre post won = inl refl
  Move-Step (select_one b is w holds k winner chosen) v pre post won = inl refl
  Move-Step (free_one b is winner i rest h holds campaign b' lost cached done) v pre post won =
      let c : Running = record { budgets = b; held = pre ++ (h ∷ holds ++ post); won = won } in
      let same : i ≡ h.campaign_index = cc v.placed.0 in
      let p = v.priced.0 in
      let owner : some p.campaign ≡ some campaign =
        sym p.cached ∙ ap (λ k. Campaigns.get campaigns k) (sym same) ∙ cached in
      let cpm : campaign.max_cpm ≡ h.campaign_cpm = cc (owner, p.price) in
      inr (
        frees c pre h (holds ++ post) b' refl (
          subst (λ k. free b k h.campaign_cpm ≡ some b') same
            (subst (λ v. free b i v ≡ some b') cpm done)))
  Move-Step (keep_one b is winner i rest h holds kept) v pre post won =
      let c : Running = record { budgets = b; held = pre ++ (h ∷ holds ++ post); won = won } in
      inr (
        wins c pre h (holds ++ post) refl
          (kept-Left winner i h holds kept (cc v.placed.0) v.placed.1))

  -- The state of the calls that a state of the goroutines stands for.
  abbrev pub calls : System → Running
  calls s = record { budgets = s.budgets; held = held_by s.threads; won = s.won }

  pub Turn-IsThread :
      {s u : System}
      → Turn campaigns s u
      → All (IsThread campaigns) s.threads
      → All (IsThread campaigns) u.threads
  Turn-IsThread (turn s pre t post b t' kept split move) all =
      let (before, here_after) =
        All-parts (IsThread campaigns) pre (t ∷ post)
          (subst (All (IsThread campaigns)) split all) in
      All-append (IsThread campaigns) pre (t' ∷ post) before
        (Move-IsThread campaigns move here_after.0, here_after.1)

  pub Turn-Ahead :
      {s u : System}
      → Turn campaigns s u
      → All (IsThread campaigns) s.threads
      → Ahead (calls s) (calls u)
  unfolding held_by
  Turn-Ahead (turn s pre t post b t' kept split move) all =
      let (before, here_after) =
        All-parts (IsThread campaigns) pre (t ∷ post)
          (subst (All (IsThread campaigns)) split all) in
      let held : held_by pre ++ (t.holds ++ held_by post) ≡ held_by s.threads =
        sym (ap held_by split ∙ held_by-append pre (t ∷ post)) in
      let held' : held_by pre ++ (t'.holds ++ held_by post) ≡ held_by (pre ++ t' ∷ post) =
        sym (held_by-append pre (t' ∷ post)) in
      subst
        (λ l.
          Ahead (record { budgets = s.budgets; held = l; won = s.won })
            (record { budgets = b; held = held_by (pre ++ t' ∷ post); won = kept ++ s.won }))
        held
        (subst
          (λ l.
            Ahead
              (record {
                budgets = s.budgets;
                held = held_by pre ++ (t.holds ++ held_by post);
                won = s.won;
              })
              (record { budgets = b; held = l; won = kept ++ s.won }))
          held' (Move-Step move here_after.0 (held_by pre) (held_by post) s.won))

  pub Run-IsThread :
      {s u : System} (r : Run campaigns s u)
      → All (IsThread campaigns) s.threads
      → All (IsThread campaigns) u.threads
  Run-IsThread Threads.here all = all
  Run-IsThread (Threads.next r t) all = Turn-IsThread t (Run-IsThread r all)

  pub ahead-Reach : {b c d : Running} → Reach b c → Ahead c d → Reach b d
  ahead-Reach {b} r (inl same) = subst (Reach b) same r
  ahead-Reach r (inr step) = next r step

  -- Goroutines in `chooseCampaign` with their reservations as its loops leave them make, in any order
  -- of their steps, only what the state of the calls allows: any reservation, the free of one, and
  -- the win of one whose budget was left.
  pub run-Reach :
      {s u : System}
      → Run campaigns s u
      → All (IsThread campaigns) s.threads
      → Reach (calls s) (calls u)
  run-Reach Threads.here all = here
  run-Reach (Threads.next r t) all =
      ahead-Reach (run-Reach r all) (Turn-Ahead t (Run-IsThread r all))
