-- ===== src/Auction/Choose/Winner.antt =====
-- Which campaign `chooseCampaign` gives, and who pays.
use guidance_for_building_a.Common.{
  ℕ, ◌<◌, ◌≡◌, ◌⊎◌, refl, sym, ◌∙◌, List, [], ◌∷◌, false, true, Option, none, some, length,
  get_elem?-some, All, if◌then◌else◌, ==_iff, inl, inr, arith,
}
use guidance_for_building_a.Common.Int64.{IsInt64, sub64, lt64}
use guidance_for_building_a.Api.{Campaign}
use guidance_for_building_a.Random.{Random, IsBounded}
use guidance_for_building_a.Cache.Campaigns
use guidance_for_building_a.Cache.Campaigns.{CampaignCache, size}
use guidance_for_building_a.Cache.Budgets.{BudgetState}
use guidance_for_building_a.Cache.Budgets.State.{funds, IsState}
use guidance_for_building_a.Auction.Indices.{contains, contains-get_elem?, Distinct, All-contains}
use guidance_for_building_a.Auction.Choose.{
  Winning, is_winner, select, winning_campaign, choose_campaign,
}
use guidance_for_building_a.Auction.Choose.Reserve.{
  price, affords, rank, get_price, price-IsInt64, reserve_all-free_all,
}
use guidance_for_building_a.Auction.Choose.Rank.{IsBest, rank-IsBest}

unfoldable pub campaign_of : CampaignCache → Option ℕ → Option Campaign
campaign_of campaigns none = none
campaign_of campaigns (some i) = Campaigns.get campaigns i

-- What is promised of the winner: it is listed, its budget is left, its MaxCPM is not negative
-- and no listed campaign with budget left has a higher one. Without a winner, every listed
-- campaign with budget left has a negative MaxCPM.
unfoldable pub IsWinner : CampaignCache → BudgetState → List ℕ → Option ℕ → Type 0
IsWinner campaigns b is none =
    (i : ℕ)
    → contains i is ≡ true
    → affords campaigns b i ≡ true
    → lt64 (price campaigns i) 0 ≡ true
IsWinner campaigns b is (some i) =
    (contains i is ≡ true)
    × (affords campaigns b i ≡ true)
    × (lt64 (price campaigns i) 0 ≡ false)
    × ((j : ℕ)
        → contains j is ≡ true
        → affords campaigns b j ≡ true
        → lt64 (price campaigns i) (price campaigns j) ≡ false)

abbrev initial : Winning
initial = record { winning_cpm = 0; winning_auctions = [] }

initial-IsBest : (campaigns : CampaignCache) (b : BudgetState) → IsBest campaigns b [] initial
unfolding contains
initial-IsBest campaigns b = record {
  winners = λ i. refl;
  highest = λ i m a. cc m;
  nonneg = unfold lt64 in refl;
  reached = inl refl;
}

listed-IsWinner :
    (campaigns : CampaignCache) (b : BudgetState) (is : List ℕ) (w : Winning) (i : ℕ)
    → IsBest campaigns b is w
    → contains i w.winning_auctions ≡ true
    → IsWinner campaigns b is (some i)
unfolding IsWinner
listed-IsWinner campaigns b is w i h m =
    let all = sym (h.winners i) ∙ m in
    let p : price campaigns i ≡ w.winning_cpm = (==_iff _ _).0 (ground arith) in
    (ground arith, ground arith, rw p h.nonneg, λ j m' a. rw p (h.highest j m' a))

nobody-IsWinner :
    (campaigns : CampaignCache) (b : BudgetState) (is : List ℕ) (w : Winning)
    → IsBest campaigns b is w
    → w.winning_auctions ≡ []
    → All (λ c. IsInt64 c.max_cpm) campaigns.campaigns
    → IsWinner campaigns b is none
unfolding IsWinner contains lt64
nobody-IsWinner campaigns b is w h e words = λ i m a.
    let word = price-IsInt64 campaigns i words in
    let out : contains i w.winning_auctions ≡ false = rw e refl in
    let low = h.highest i m a in
    elim h.reached [ inl z ↦ ground (arith, h.winners i) | inr ne ↦ elim (ne e) [ ] ]

module _ (r : Random) (bounded : IsBounded r) where
  select_lem :
      (xs : List ℕ) (rng : r.Rng)
      → (winner : Option ℕ) × (rng' : r.Rng) × (select r xs rng ≡ some (winner, rng'))
        × (((winner ≡ none) × (xs ≡ [])) ⊎ ((i : ℕ) × (winner ≡ some i) × (contains i xs ≡ true)))
  unfolding select
  select_lem [] rng = (none, rng, refl, inl (refl, refl))
  select_lem (x ∷ xs) rng =
      let k = r.intn rng (length (x ∷ xs)) in
      let (i, e) =
        get_elem?-some (x ∷ xs) k.0 (bounded.intn_lt rng (length (x ∷ xs)) (omega arith)) in
      (some i, k.1, rw e refl, inr (i, refl, contains-get_elem? (x ∷ xs) k.0 e))

  select-IsWinner :
      (campaigns : CampaignCache) (b : BudgetState) (is : List ℕ) (w : Winning) (rng : r.Rng)
      → IsBest campaigns b is w
      → All (λ c. IsInt64 c.max_cpm) campaigns.campaigns
      → (winner : Option ℕ) × (rng' : r.Rng) × (select r w.winning_auctions rng
          ≡ some (winner, rng'))
        × IsWinner campaigns b is winner
  select-IsWinner campaigns b is w rng h words =
      let (winner, rng', e, cases) = select_lem w.winning_auctions rng in
      (
        winner,
        rng',
        e,
        elim cases [
          | inl (n, l) ↦ rw n (nobody-IsWinner campaigns b is w h l words)
          | inr (i, s, m) ↦ rw s (listed-IsWinner campaigns b is w i h m)
        ],
      )

  among :
      (campaigns : CampaignCache) (b : BudgetState) (is : List ℕ) (winner : Option ℕ)
      → IsWinner campaigns b is winner
      → (i : ℕ) → is_winner winner i ≡ true
      → contains i is ≡ true
  unfolding IsWinner
  among campaigns b is none h i e = cc e
  among campaigns b is (some k) h i e = rw ((==_iff i k).0 e) h.0

  campaign_found :
      (campaigns : CampaignCache) (b : BudgetState) (is : List ℕ) (winner : Option ℕ)
      → IsWinner campaigns b is winner
      → All (λ i. i < size campaigns) is
      → winning_campaign campaigns winner ≡ some (campaign_of campaigns winner)
  unfolding campaign_of IsWinner winning_campaign
  campaign_found campaigns b is none wins h = refl
  campaign_found campaigns b is (some i) wins h =
      let (c, e, p) =
        get_price campaigns i (All-contains (λ j. j < size campaigns) is i h wins.0) in
      rw e refl

  -- For distinct indices of cached campaigns and a budget for each campaign, `chooseCampaign` does
  -- not panic; it gives a campaign of the highest MaxCPM among those with budget left, or nil where
  -- none has a MaxCPM of at least zero; the winner has paid its MaxCPM, and every other campaign
  -- has the budget it had.
  pub choose_campaign-IsWinner :
      (campaigns : CampaignCache) (b : BudgetState) (is : List ℕ) (rng : r.Rng)
      → IsState (size campaigns) b
      → Distinct is
      → All (λ i. i < size campaigns) is
      → All (λ c. IsInt64 c.max_cpm) campaigns.campaigns
      → (winner : Option ℕ) × (freed : BudgetState) × (rng' : r.Rng) × (choose_campaign r campaigns
            b is rng
          ≡ some (campaign_of campaigns winner, freed, rng'))
        × IsWinner campaigns b is winner
        × IsState (size campaigns) freed
        × ((j : ℕ)
            → funds freed j
              ≡ (if is_winner winner j then sub64 (funds b j) (price campaigns j) else funds b j))
  unfolding choose_campaign
  choose_campaign-IsWinner campaigns b is rng s d h words =
      let (reserved, e, frees) = reserve_all-free_all campaigns is b initial s d h words in
      let best = rank-IsBest campaigns b is [] initial (initial-IsBest campaigns b) in
      let (winner, rng', e', wins) =
        select-IsWinner campaigns b is (rank campaigns b initial is) rng best words in
      let (freed, e'', s', charge) = frees winner (among campaigns b is winner wins) in
      (
        winner,
        freed,
        rng',
        rw (e, e', e'', campaign_found campaigns b is winner wins h) refl,
        wins,
        s',
        charge,
      )
