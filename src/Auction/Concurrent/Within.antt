-- ===== src/Auction/Concurrent/Within.antt =====
-- No campaign spends more than its budget, where the goroutines are in `chooseCampaign`.
use guidance_for_building_a.Common.{
  ℕ, ◌+◌, ◌*◌, ◌≤◌, ◌<◌, ◌≡◌, ◌%◌, refl, ap, sym, ◌∙◌, subst, List, [], ◌∷◌, map, false, some, All,
  length, length-append, Bool-cases, inl, inr, ◌==◌, ==_iff, arith,
}
use guidance_for_building_a.Common.Int64.{sign_bit, u64_mod}
use guidance_for_building_a.Api.{Campaign}
use guidance_for_building_a.Cache.Campaigns
use guidance_for_building_a.Cache.Campaigns.{CampaignCache}
use guidance_for_building_a.Cache.Budgets.{BudgetState}
use guidance_for_building_a.Cache.Budgets.State.{funds}
use guidance_for_building_a.Auction.Indices.{contains, Distinct}
use guidance_for_building_a.Auction.Concurrent.{Hold, Running, amount, Reach, next, IsLimited}
use guidance_for_building_a.Auction.Concurrent
use guidance_for_building_a.Auction.Concurrent.Overspend.{amount-append, IsFair, IsFair-at}
use guidance_for_building_a.Auction.Concurrent.Placed.{
  IsPlaced, indices, IsPriced, IsThread, start-IsThread,
}
use guidance_for_building_a.Auction.Concurrent.Refines.{Ahead, calls, Turn-Ahead, Run-IsThread}
use guidance_for_building_a.Auction.Concurrent.Threads.{
  Position, reserving, freeing, HasFinished, IsFinished, start, Thread, System, Turn, turn, Run,
  new_thread, held_by,
}
use guidance_for_building_a.Auction.Concurrent.Threads

amount_fresh : (i : ℕ) (holds : List Hold) → contains i (indices holds) ≡ false → amount i holds ≡ 0
unfolding amount contains indices
amount_fresh i [] h = refl
amount_fresh i (x ∷ xs) h = ground (arith, h, amount_fresh i xs)

all_start :
    (campaigns : CampaignCache) (lists : List (List ℕ))
    → All Distinct lists
    → All (IsThread campaigns) (map new_thread lists)
all_start campaigns [] d = tt
all_start campaigns (is ∷ lists) d =
    (start-IsThread campaigns is d.0, all_start campaigns lists d.1)

held_at_start : (lists : List (List ℕ)) → held_by (map new_thread lists) ≡ []
unfolding held_by
held_at_start [] = refl
held_at_start (is ∷ lists) = held_at_start lists

length-map_start : (lists : List (List ℕ)) → length (map new_thread lists) ≡ length lists
length-map_start [] = refl
length-map_start (is ∷ lists) = ap ℕ.suc (length-map_start lists)

finished-holds :
    (is : List ℕ) (p : Position) (holds : List Hold)
    → HasFinished p
    → IsPlaced is p holds
    → holds ≡ []
unfolding indices
finished-holds is (reserving w rest) holds done placed = absurd done
finished-holds is (freeing winner []) [] done placed = refl
finished-holds is (freeing winner []) (h ∷ hs) done placed = cc placed.0
finished-holds is (freeing winner (x ∷ xs)) holds done placed = absurd done

finished-held_by :
    (campaigns : CampaignCache) (ts : List Thread)
    → All IsFinished ts
    → All (IsThread campaigns) ts
    → held_by ts ≡ []
unfolding held_by
finished-held_by campaigns [] done all = refl
finished-held_by campaigns (t ∷ ts) (done, dones) (v, vs) =
    let none_held = finished-holds t.campaign_indices t.position t.holds done v.placed in
    rw (none_held, finished-held_by campaigns ts dones vs) refl

module _ (campaigns : CampaignCache) (i : ℕ) (campaign : Campaign)
    (cached : Campaigns.get campaigns i ≡ some campaign) where
  amount_alone :
      (holds : List Hold)
      → Distinct (indices holds)
      → All (IsPriced campaigns) holds
      → amount i holds ≤ campaign.max_cpm
  unfolding amount indices
  amount_alone [] d p = omega arith
  amount_alone (x ∷ xs) d (p, ps) = elim (Bool-cases (x.campaign_index == i)) [
    | inl same ↦
        let e : x.campaign_index ≡ i = (==_iff x.campaign_index i).0 same in
        let owner : some p.campaign ≡ some campaign =
          sym p.cached ∙ ap (λ k. Campaigns.get campaigns k) e ∙ cached in
        let none_left = amount_fresh i xs (subst (λ k. contains k (indices xs) ≡ false) e d.0) in
        let cpm : x.campaign_cpm ≡ campaign.max_cpm = cc (owner, p.price) in
        ground (arith, none_left, cpm, same)
    | inr other ↦ ground (arith, other, amount_alone xs d.1 ps)
  ]

  -- Each goroutine has the campaign's MaxCPM reserved once at most.
  amount-held_by :
      (ts : List Thread)
      → All (IsThread campaigns) ts
      → amount i (held_by ts) ≤ length ts * campaign.max_cpm
  unfolding held_by amount
  amount-held_by [] v = omega arith
  amount-held_by (t ∷ ts) (v, vs) = omega (
    arith,
    amount-append i t.holds (held_by ts),
    amount_alone t.holds v.apart v.priced,
    amount-held_by ts vs,
  )

  module _ (goroutines : ℕ) (few : goroutines * campaign.max_cpm ≤ sign_bit) where
    at_most :
        (ts : List Thread)
        → All (IsThread campaigns) ts
        → length ts ≡ goroutines
        → amount i (held_by ts) ≤ sign_bit
    at_most ts all e =
        let h = amount-held_by ts all in
        let k = ap (λ n. n * campaign.max_cpm) e in omega (arith, h, k, few)

    length-Turn : {s u : System} → Turn campaigns s u → length u.threads ≡ length s.threads
    length-Turn (turn s pre t post b t' kept split move) =
        length-append pre (t' ∷ post) ∙ sym (ap length split ∙ length-append pre (t ∷ post))

    IsLimited-after :
        {b c d : Running}
        → (r : Reach b c) × IsLimited i r
        → Ahead c d
        → amount i d.held ≤ sign_bit
        → (r : Reach b d) × IsLimited i r
    unfolding IsLimited
    IsLimited-after {b} q (inl same) small = subst (λ d. (r : Reach b d) × IsLimited i r) same q
    IsLimited-after q (inr step) small = (next q.0 step, (q.1, small))

    length-Run : {s u : System} → Run campaigns s u → length u.threads ≡ length s.threads
    length-Run Threads.here = refl
    length-Run (Threads.next r t) = length-Turn t ∙ length-Run r

    IsLimited-Run :
        {s u : System}
        → Run campaigns s u
        → All (IsThread campaigns) s.threads
        → length s.threads ≡ goroutines
        → (r : Reach (calls campaigns s) (calls campaigns u)) × IsLimited i r
    unfolding IsLimited
    IsLimited-Run {s} Threads.here all e = (Concurrent.here, at_most s.threads all e)
    IsLimited-Run {u = u} (Threads.next r t) all e =
        let at_end = Run-IsThread campaigns (Threads.next r t) all in
        IsLimited-after (IsLimited-Run r all e)
          (Turn-Ahead campaigns t (Run-IsThread campaigns r all))
          (at_most u.threads at_end (length-Turn t ∙ length-Run r ∙ e))

    IsFair-Run :
        (b : BudgetState) (lists : List (List ℕ)) {s : System}
        → All Distinct lists
        → length lists ≡ goroutines
        → funds b i < sign_bit
        → Run campaigns (start b lists) s
        → IsFair i (funds b i) (calls campaigns s)
    IsFair-Run b lists {s} d e small r =
        let q = IsLimited-Run r (all_start campaigns lists d) (length-map_start lists ∙ e) in
        let q' : (r : Reach (record { budgets = b; held = []; won = [] }) (calls campaigns s))
            × IsLimited i r =
          subst
            (λ l.
              (r : Reach (record { budgets = b; held = l; won = [] }) (calls campaigns s))
              × IsLimited i r)
            (held_at_start lists) q in
        IsFair-at i b small q'.0 q'.1

  -- Where any number of goroutines are in `chooseCampaign`, each with indices that do not repeat, and
  -- a campaign has a budget below 2 ^ 63 and a MaxCPM which so many reservations cannot bring to more
  -- than 2 ^ 63, then after any of their steps, in any order: what the winners of the campaign cost
  -- together is within the budget, and the budget is, modulo 2 ^ 64, what is available, what the
  -- goroutines have reserved and what the winners cost.
  pub Run-within :
      (b : BudgetState) (lists : List (List ℕ)) {s : System}
      → All Distinct lists
      → length lists * campaign.max_cpm ≤ sign_bit
      → funds b i < sign_bit
      → Run campaigns (start b lists) s
      → (amount i s.won ≤ funds b i)
        × ((funds s.budgets i + amount i (held_by s.threads) + amount i s.won) % u64_mod
            ≡ funds b i)
  Run-within b lists d few small r =
      let f = IsFair-Run (length lists) few b lists d refl small r in
      (omega (arith, f.fair), f.balance)

  -- Once these goroutines have all finished their second loop, however their steps were interleaved,
  -- what is available of the campaign and what its winners cost are exactly the budget.
  pub Run-settles :
      (b : BudgetState) (lists : List (List ℕ)) {s : System}
      → All Distinct lists
      → length lists * campaign.max_cpm ≤ sign_bit
      → funds b i < sign_bit
      → Run campaigns (start b lists) s
      → All IsFinished s.threads
      → funds s.budgets i + amount i s.won ≡ funds b i
  unfolding amount
  Run-settles b lists {s} d few small r done =
      let f = IsFair-Run (length lists) few b lists d refl small r in
      let none_held : amount i (held_by s.threads) ≡ 0 = ap (amount i) (
        finished-held_by campaigns s.threads done
          (Run-IsThread campaigns r (all_start campaigns lists d))) in
      omega (arith, f.fair, f.balance, f.word, none_held)
