-- ===== src/Auction/Concurrent/Alone.antt =====
-- `chooseCampaign` without others in between, as steps of one goroutine.
use guidance_for_building_a.Common.{
  ap, sym, ◌∙◌, subst, append-nil, append_assoc, ℕ, ◌≡◌, refl, List, [], ◌∷◌, ◌++◌, Option, none,
  some, Option-cases, Bool-cases, get_elem?, length, inl, inr, if◌then◌else◌,
}
use guidance_for_building_a.Api.{Campaign}
use guidance_for_building_a.Random.{Random}
use guidance_for_building_a.Cache.Campaigns
use guidance_for_building_a.Cache.Campaigns.{CampaignCache}
use guidance_for_building_a.Cache.Budgets.{BudgetState, reserve, free}
use guidance_for_building_a.Auction.Choose.{
  Winning, reserve_all, contend, is_winner, free_all, select, winning_campaign, choose_campaign,
}
use guidance_for_building_a.Auction.Concurrent.{Hold}
use guidance_for_building_a.Auction.Concurrent.Placed.{indices, indices_snoc}
use guidance_for_building_a.Auction.Concurrent.Threads.{
  Position, reserving, freeing, Thread, Move, reserve_one, select_none, select_one, free_one,
  keep_one, System, turn, Run, here, next, start,
}

abbrev at : List ℕ → Position → List Hold → Thread
at is position holds = record { campaign_indices = is; position = position; holds = holds }

-- One goroutine.
abbrev pub alone : List ℕ → BudgetState → Position → List Hold → List Hold → System
alone is b position holds won = record {
  budgets = b;
  threads = at is position holds ∷ [];
  won = won;
}

module _ (campaigns : CampaignCache) (s : System) (is : List ℕ) where
  Move-alone :
      {b b' : BudgetState} (p p' : Position) (holds holds' won kept : List Hold)
      → Run campaigns s (alone is b p holds won)
      → Move campaigns b (at is p holds) b' (at is p' holds') kept
      → Run campaigns s (alone is b' p' holds' (kept ++ won))
  Move-alone {b} {b'} p p' holds holds' won kept run m =
      next run
        (turn (alone is b p holds won) [] (at is p holds) [] b' (at is p' holds') kept refl m)

  -- The first loop, with a reservation for each index.
  reserve_all-Run :
      (rest : List ℕ) (b : BudgetState) (w : Winning) (holds won : List Hold) {b' : BudgetState}
      {w' : Winning}
      → Run campaigns s (alone is b (reserving w rest) holds won)
      → indices holds ++ rest ≡ is
      → reserve_all campaigns b w rest ≡ some (b', w')
      → (holds' : List Hold) × Run campaigns s (alone is b' (reserving w' []) holds' won)
        × (indices holds' ≡ is)
  unfolding reserve_all indices
  reserve_all-Run [] b w holds won {b'} {w'} run all e =
      let eb : b ≡ b' = cc e in
      let ew : w ≡ w' = cc e in
      (
        holds,
        subst (λ v. Run campaigns s (alone is b' (reserving v []) holds won)) ew
            (subst (λ c. Run campaigns s (alone is c (reserving w []) holds won)) eb run),
        sym (append-nil (indices holds)) ∙ all,
      )
  reserve_all-Run (i ∷ rest) b w holds won run all e =
      elim (Option-cases (Campaigns.get campaigns i)) [
        | inl out ↦ let wrong = rw (reserve_all, out) at e in cc wrong
        | inr (campaign, cached) ↦ elim (Option-cases (reserve b i campaign.max_cpm)) [
          | inl out ↦ let wrong = rw (reserve_all, cached, out) at e in cc wrong
          | inr ((b1, left), done) ↦
              let h : Hold = record {
                campaign_index = i;
                campaign_cpm = campaign.max_cpm;
                budget_left = left;
              } in
              let w1 = if left then contend w i campaign.max_cpm else w in
              reserve_all-Run rest b1 w1 (holds ++ h ∷ []) won
                (Move-alone (reserving w (i ∷ rest)) (reserving w1 rest) holds (holds ++ h ∷ []) won
                  [] run (reserve_one b is w rest holds campaign h b1 cached refl done))
                (ap (λ l. l ++ rest) (indices_snoc holds h)
                  ∙ append_assoc (indices holds) (i ∷ []) rest
                  ∙ all)
                (rw (reserve_all, cached, done) at e)
        ]
      ]

  -- The second loop, which uses up the reservations.
  free_all-Run :
      (winner : Option ℕ) (rest : List ℕ) (b : BudgetState) (holds won : List Hold)
      {b' : BudgetState}
      → Run campaigns s (alone is b (freeing winner rest) holds won)
      → indices holds ≡ rest
      → free_all campaigns winner b rest ≡ some b'
      → (won' : List Hold) × Run campaigns s (alone is b' (freeing winner []) [] won')
  unfolding free_all indices
  free_all-Run winner [] b [] won {b'} run all e =
      let eb : b ≡ b' = cc e in
      (won, subst (λ c. Run campaigns s (alone is c (freeing winner []) [] won)) eb run)
  free_all-Run winner [] b (h ∷ holds) won run all e = cc all
  free_all-Run winner (i ∷ rest) b [] won run all e = cc all
  free_all-Run winner (i ∷ rest) b (h ∷ holds) won run all e =
      let left : indices holds ≡ rest = cc all in
      elim (Option-cases (Campaigns.get campaigns i)) [
        | inl out ↦ let wrong = rw (free_all, out) at e in cc wrong
        | inr (campaign, cached) ↦ elim (Bool-cases (is_winner winner i)) [
          | inl wins ↦
              free_all-Run winner rest b holds (h ∷ won)
                (Move-alone (freeing winner (i ∷ rest)) (freeing winner rest) (h ∷ holds) holds won
                  (h ∷ []) run (keep_one b is winner i rest h holds wins))
                left (rw (free_all, cached, wins) at e)
          | inr loses ↦ elim (Option-cases (free b i campaign.max_cpm)) [
            | inl out ↦ let wrong = rw (free_all, cached, loses, out) at e in cc wrong
            | inr (b1, done) ↦
                free_all-Run winner rest b1 holds won
                  (Move-alone (freeing winner (i ∷ rest)) (freeing winner rest) (h ∷ holds) holds
                    won [] run (free_one b is winner i rest h holds campaign b1 loses cached done))
                  left (rw (free_all, cached, loses, done) at e)
          ]
        ]
      ]

  select-Run :
      (r : Random) (rng : r.Rng) (b : BudgetState) (w : Winning) (holds won : List Hold)
      (auctions : List ℕ) {winner : Option ℕ} {rng' : r.Rng}
      → w.winning_auctions ≡ auctions
      → Run campaigns s (alone is b (reserving w []) holds won)
      → select r auctions rng ≡ some (winner, rng')
      → Run campaigns s (alone is b (freeing winner is) holds won)
  unfolding select
  select-Run r rng b w holds won [] {winner} same run e =
      subst (λ o. Run campaigns s (alone is b (freeing o is) holds won)) (cc e)
        (Move-alone (reserving w []) (freeing none is) holds holds won [] run
          (select_none b is w holds same))
  select-Run r rng b w holds won (x ∷ xs) {winner} same run e =
      let k = (r.intn rng (length (x ∷ xs))).0 in
      elim (Option-cases (get_elem? (x ∷ xs) k)) [
        | inl out ↦ let wrong = rw (select, out) at e in cc wrong
        | inr (i, found) ↦
            let i_wins : some i ≡ winner = cc (rw (select, found) at e) in
            subst (λ o. Run campaigns s (alone is b (freeing o is) holds won)) i_wins
              (Move-alone (reserving w []) (freeing (some i) is) holds holds won [] run
                (select_one b is w holds k i (rw (← same) at found)))
      ]

-- `chooseCampaign` run alone, where it does not panic, is a sequence of the steps of one goroutine from
-- the start to the end of its second loop: the budgets after it are those that it gives, and the
-- campaign that it gives is the one of the winner in that loop.
pub choose_campaign-Run :
    (r : Random) (campaigns : CampaignCache) (b : BudgetState) (is : List ℕ) (rng : r.Rng)
    {campaign : Option Campaign} {b' : BudgetState} {rng' : r.Rng}
    → choose_campaign r campaigns b is rng ≡ some (campaign, b', rng')
    → (winner : Option ℕ) × (won : List Hold) × Run campaigns
        (start b (is ∷ []))
        (alone is b' (freeing winner []) [] won)
      × (winning_campaign campaigns winner ≡ some campaign)
unfolding choose_campaign indices
choose_campaign-Run r campaigns b is rng {campaign} {b'} e =
    let empty : Winning = record { winning_cpm = 0; winning_auctions = [] } in
    let s = start b (is ∷ []) in
    elim (Option-cases (reserve_all campaigns b empty is)) [
      | inl out ↦ let wrong = rw (choose_campaign, out) at e in cc wrong
      | inr ((b1, w), reserved) ↦ elim (Option-cases (select r w.winning_auctions rng)) [
        | inl out ↦ let wrong = rw (choose_campaign, reserved, out) at e in cc wrong
        | inr ((winner, rng1), selected) ↦ elim (Option-cases (free_all campaigns winner b1 is)) [
          | inl out ↦ let wrong = rw (choose_campaign, reserved, selected, out) at e in cc wrong
          | inr (b2, freed) ↦ elim (Option-cases (winning_campaign campaigns winner)) [
            | inl out ↦
                let wrong = rw (choose_campaign, reserved, selected, freed, out) at e in cc wrong
            | inr (c, found) ↦
                let all = rw (choose_campaign, reserved, selected, freed, found) at e in
                let eb : b2 ≡ b' = cc all in
                let ec : c ≡ campaign = cc all in
                let (holds, r1, listed) =
                  reserve_all-Run campaigns s is is b empty [] [] here refl reserved in
                let r2 =
                  select-Run campaigns s is r rng b1 w holds [] w.winning_auctions refl r1
                    selected in
                let (won, r3) = free_all-Run campaigns s is winner is b1 holds [] r2 listed freed in
                (
                  winner,
                  won,
                  subst (λ x. Run campaigns s (alone is x (freeing winner []) [] won)) eb r3,
                  found ∙ ap some ec,
                )
          ]
        ]
      ]
    ]
