-- ===== src/Auction/Run/Campaigns.antt =====
-- An auction once the audiences of the device are known.
use guidance_for_building_a.Common.{
  ℕ, ◌+◌, ◌<◌, ◌≡◌, refl, ap, sym, ◌∙◌, List, [], ◌∷◌, false, Option, none, some, get_elem?, All,
  if◌then◌else◌,
}
use guidance_for_building_a.Common.Int64.{u64_mod, sub64}
use guidance_for_building_a.Id.{ItemId}
use guidance_for_building_a.Random.{Random, IsBounded}
use guidance_for_building_a.Cache.Campaigns.{CampaignCache, size}
use guidance_for_building_a.Cache.Audiences
use guidance_for_building_a.Cache.Audiences.{AudienceCache}
use guidance_for_building_a.Cache.Budgets.{BudgetState}
use guidance_for_building_a.Cache.Budgets.State.{funds, IsState}
use guidance_for_building_a.Auction.Indices.{contains, Distinct, All-contains}
use guidance_for_building_a.Auction.Candidates.Unique.{get_audience_campaigns-unique}
use guidance_for_building_a.Auction.Candidates.Listing.{
  InRange, InRange-targeting, targeting, unique, unique-Distinct, contains-unique, unique-All,
}
use guidance_for_building_a.Auction.Choose.{is_winner, choose_campaign}
use guidance_for_building_a.Auction.Choose.Reserve.{price, get_price}
use guidance_for_building_a.Auction.Choose.Winner.{campaign_of, IsWinner, choose_campaign-IsWinner}
use guidance_for_building_a.Auction.Run.{
  Auction, PersistentData, Request, Item, Answer, bid, no_bid, respond, check_timeout,
  run_audiences, run_campaigns, bid_among,
}
use guidance_for_building_a.Auction.Run.Spec.{IsReady, Answers, untargeted, exhausted, sold}

InRange-all :
    (size : ℕ) (audience : AudienceCache) (ids : List ItemId)
    → ((i : ItemId) → All (λ c. c < size) (Audiences.get audience i))
    → InRange size audience ids
unfolding InRange
InRange-all size audience [] h = tt
InRange-all size audience (i ∷ ids) h = (h i, InRange-all size audience ids h)

module _ (r : Random) (bounded : IsBounded r) where
  IsWinner-unique :
      (campaigns : CampaignCache) (b : BudgetState) (xs : List ℕ) (winner : Option ℕ)
      → IsWinner campaigns b (unique [] xs) winner
      → IsWinner campaigns b xs winner
  unfolding IsWinner contains
  IsWinner-unique campaigns b xs none h = λ i m a. h i (contains-unique i xs [] ∙ m) a
  IsWinner-unique campaigns b xs (some i) h = (
    sym (contains-unique i xs []) ∙ h.0,
    h.1,
    h.2,
    λ j m a. h.3 j (contains-unique j xs [] ∙ m) a,
  )

  -- The part after the candidates.
  run_campaigns_outcome :
      (n : ℕ) (a : Auction r) (request : Request) (item : Item) (pd : PersistentData r)
      (ids : List ItemId)
      → IsReady r n a
      → get_elem? request.item 0 ≡ some item
      → pd.campaign_indices ≡ unique [] (targeting a.audience ids)
      → All (λ i. i < size a.campaign) (targeting a.audience ids)
      → (answer : Answer) × (a' : Auction r) × (pd' : PersistentData r) × (run_campaigns r a request
            pd
          ≡ some (answer, a', pd'))
        × Answers r a request ids none (check_timeout answer) a'
        × IsReady r n a'
  unfolding run_campaigns check_timeout respond campaign_of IsWinner
  run_campaigns_outcome n a request item pd ids ready first e below =
      let distinct : Distinct pd.campaign_indices =
        rw e (unique-Distinct (targeting a.audience ids) [] tt) in
      let listed : All (λ i. i < size a.campaign) pd.campaign_indices =
        rw e (unique-All (λ i. i < size a.campaign) (targeting a.audience ids) [] tt below) in
      let (winner, freed, rng', f, wins, s, charge) =
        choose_campaign-IsWinner r bounded a.campaign a.budget pd.campaign_indices pd.rng
          ready.budgets distinct listed ready.words in
      let wins' : IsWinner a.campaign a.budget (targeting a.audience ids) winner =
        IsWinner-unique a.campaign a.budget (targeting a.audience ids) winner (rw e at wins) in
      finish winner freed rng' f wins' s charge
    where
      finish :
          (winner : Option ℕ) (freed : BudgetState) (rng' : r.Rng)
          → choose_campaign r a.campaign a.budget pd.campaign_indices pd.rng
            ≡ some (campaign_of a.campaign winner, freed, rng')
          → IsWinner a.campaign a.budget (targeting a.audience ids) winner
          → IsState (size a.campaign) freed
          → ((j : ℕ)
              → funds freed j ≡ (
                  if is_winner winner j
                  then sub64 (funds a.budget j) (price a.campaign j)
                  else funds a.budget j))
          → (answer : Answer) × (a' : Auction r) × (pd' : PersistentData r) × (run_campaigns r a
                request pd
              ≡ some (answer, a', pd'))
            × Answers r a request ids none (check_timeout answer) a'
            × IsReady r n a'
      finish none freed rng' f wins s charge =
          let a' : Auction r = record a {
            budget = freed;
            update_requests = a.update_requests + 1;
          } in
          (
            no_bid,
            a',
            record pd { rng = rng' },
            rw (f, campaign_of) refl,
            exhausted wins charge,
            record {
              targets = ready.targets;
              budgets = s;
              words = ready.words;
              tables = ready.tables;
            },
          )
      finish (some i) freed rng' f wins s charge =
          let (c, at, p) =
            get_price a.campaign i
              (All-contains (λ j. j < size a.campaign) (targeting a.audience ids) i below wins.0) in
          let a' : Auction r = record a { budget = freed } in
          let answer : Answer =
            bid (record { request = request; item = item; campaign = c; price = c.max_cpm }) in
          (
            answer,
            a',
            record pd { rng = rng' },
            rw (f, campaign_of, at, first) refl,
            sold i item c first at wins charge,
            record {
              targets = ready.targets;
              budgets = s;
              words = ready.words;
              tables = ready.tables;
            },
          )

  bid_among_outcome :
      (n : ℕ) (is : List ℕ) (a : Auction r) (request : Request) (item : Item)
      (pd : PersistentData r) (ids : List ItemId)
      → IsReady r n a
      → get_elem? request.item 0 ≡ some item
      → pd.campaign_indices ≡ is
      → is ≡ unique [] (targeting a.audience ids)
      → All (λ i. i < size a.campaign) (targeting a.audience ids)
      → (answer : Answer) × (a' : Auction r) × (pd' : PersistentData r) × (bid_among r is a request
            pd
          ≡ some (answer, a', pd'))
        × Answers r a request ids none (check_timeout answer) a'
        × IsReady r n a'
  unfolding bid_among check_timeout contains
  bid_among_outcome n [] a request item pd ids ready first e e' below =
      let none_targets : (i : ℕ) → contains i (targeting a.audience ids) ≡ false =
        λ i. sym (contains-unique i (targeting a.audience ids) []) ∙ ap (contains i) (sym e') in
      (no_bid, a, pd, refl, untargeted none_targets, ready)
  bid_among_outcome n (i ∷ is) a request item pd ids ready first e e' below =
      run_campaigns_outcome n a request item pd ids ready first (e ∙ e') below

  pub run_audiences_outcome :
      (n : ℕ) (a : Auction r) (request : Request) (item : Item) (pd : PersistentData r)
      → IsReady r n a
      → n + 1 < u64_mod
      → get_elem? request.item 0 ≡ some item
      → (answer : Answer) × (a' : Auction r) × (pd' : PersistentData r) × (run_audiences r a request
            pd
          ≡ some (answer, a', pd'))
        × Answers r a request pd.device none (check_timeout answer) a'
        × IsReady r (n + 1) a'
  unfolding run_audiences
  run_audiences_outcome n a request item pd ready small first =
      let range = InRange-all (size a.campaign) a.audience pd.device ready.targets in
      let (tables, f, t) =
        get_audience_campaigns-unique n a.audience (size a.campaign) a.campaign_lookup_pool
          pd.device ready.tables small range in
      let a1 : Auction r = record a { campaign_lookup_pool = tables } in
      let ready1 : IsReady r (n + 1) a1 = record {
        targets = ready.targets;
        budgets = ready.budgets;
        words = ready.words;
        tables = t;
      } in
      let is = unique [] (targeting a.audience pd.device) in
      let (answer, a', pd', g, out, ready') =
        bid_among_outcome (n + 1) is a1 request item (record pd { campaign_indices = is }) pd.device
          ready1 first refl refl (InRange-targeting (size a.campaign) a.audience pd.device range) in
      (answer, a', pd', rw f g, out, ready')
