-- ===== src/Auction/Tests.antt =====
-- Auctions in the small shop.
use guidance_for_building_a.Common.{
  ℕ, ◌<◌, ◌≡◌, refl, List, [], ◌∷◌, Option, none, some, All, length, if◌then◌else◌, true, arith,
}
use guidance_for_building_a.Common.Int64.{sub64}
use guidance_for_building_a.Id.{ItemId}
use guidance_for_building_a.Api.{Error, ok}
use guidance_for_building_a.Random.Counter.{counter, counter-IsBounded}
use guidance_for_building_a.Cache.Campaigns.{size}
use guidance_for_building_a.Cache.Budgets.{BudgetState}
use guidance_for_building_a.Cache.Budgets.State.{IsState, funds}
use guidance_for_building_a.Cache.Devices
use guidance_for_building_a.Cache.Devices.{DeviceCache, new_device}
use guidance_for_building_a.Auction.Indices.{contains, Distinct}
use guidance_for_building_a.Auction.Candidates.{CampaignLookup, get_audience_campaigns}
use guidance_for_building_a.Auction.Candidates.Unique.{IsTable, get_audience_campaigns-unique}
use guidance_for_building_a.Auction.Candidates.Listing.{InRange, unique, targeting}
use guidance_for_building_a.Auction.Choose.{is_winner, choose_campaign}
use guidance_for_building_a.Auction.Choose.Reserve.{price}
use guidance_for_building_a.Auction.Choose.Winner.{campaign_of, IsWinner, choose_campaign-IsWinner}
use guidance_for_building_a.Auction.Run.{Auction, Answer, run_auction}
use guidance_for_building_a.Auction.Run.Spec.{IsReady, Answers}
use guidance_for_building_a.Auction.Run.Outcome.{run_auction_outcome}
use guidance_for_building_a.Auction.Start.{new_auction}
use guidance_for_building_a.Auction.Start.Ready.{new_auction-IsReady}
use guidance_for_building_a.Auction.Start.Serve.{stays_solvent, HasItem, serve, serve_all}
use guidance_for_building_a.Auction.Shop.{
  validation, audience_id, database, request, shop, words, shop-IsReady,
}

new_auction-IsReady_example :
    (a : Auction counter) × (new_auction counter validation database ≡ some (ok a))
    × IsReady counter 0 a
new_auction-IsReady_example = new_auction-IsReady counter validation database refl refl refl words

run_auction_outcome_example :
    (ids : List ItemId) × (e : Option Error) × (device' : DeviceCache counter) × (Devices.get
        counter shop.device request.device_id []
      ≡ some (ids, e, device'))
    × (answer : Answer) × (a' : Auction counter) × (run_auction counter shop request
        ≡ some (answer, a'))
    × Answers counter shop request ids e answer a'
    × IsReady counter 1 a'
run_auction_outcome_example =
    run_auction_outcome counter counter-IsBounded 0 shop request (record { id = 1 ∷ [] })
      shop-IsReady (omega arith) refl

-- The first request is sold to the cheap campaign, whose budget then does not suffice.
abbrev twice : Option (List Answer × ℕ)
twice = elim (serve counter shop (request ∷ request ∷ [])) [
  | none ↦ none
  | some (answers, a) ↦ some (answers, a.update_requests)
]

has : All HasItem (request ∷ request ∷ [])
has = let one : HasItem request = (record { id = 1 ∷ [] }, refl) in (one, (one, tt))

serve_all_example :
    (answers : List Answer) × (a' : Auction counter) × (serve counter shop (request ∷ request ∷ [])
      ≡ some (answers, a'))
    × (length answers ≡ 2)
    × IsReady counter 2 a'
    × ((i : ℕ) → stays_solvent i shop.budget a'.budget ≡ true)
serve_all_example =
    serve_all counter counter-IsBounded 0 shop (request ∷ request ∷ []) shop-IsReady has
      (omega arith)

below_two : All (λ i. i < 2) (0 ∷ 1 ∷ [])
below_two = (omega arith, (omega arith, tt))

distinct : Distinct (0 ∷ 1 ∷ [])
unfolding contains
distinct = (refl, (refl, tt))

choose_campaign-IsWinner_example :
    (winner : Option ℕ) × (freed : BudgetState) × (rng' : ℕ) × (choose_campaign counter
        shop.campaign shop.budget
        (0 ∷ 1 ∷ [])
        5
      ≡ some (campaign_of shop.campaign winner, freed, rng'))
    × IsWinner shop.campaign shop.budget (0 ∷ 1 ∷ []) winner
    × IsState 2 freed
    × ((j : ℕ)
        → funds freed j ≡ (
            if is_winner winner j
            then sub64 (funds shop.budget j) (price shop.campaign j)
            else funds shop.budget j))
unfolding size
choose_campaign-IsWinner_example =
    choose_campaign-IsWinner counter counter-IsBounded shop.campaign shop.budget (0 ∷ 1 ∷ []) 5
      shop-IsReady.budgets distinct below_two words

in_range : InRange 2 shop.audience (audience_id ∷ [])
unfolding InRange size
in_range = (shop-IsReady.targets audience_id, tt)

get_audience_campaigns-unique_example :
    (pool' : List CampaignLookup) × (get_audience_campaigns shop.audience 2
        (record { lookup = 3 ∷ []; run_id = 3 } ∷ [])
        (audience_id ∷ [])
      ≡ some (unique [] (targeting shop.audience (audience_id ∷ [])), pool'))
    × All (IsTable 4) pool'
get_audience_campaigns-unique_example =
    get_audience_campaigns-unique 3 shop.audience 2 (record { lookup = 3 ∷ []; run_id = 3 } ∷ [])
      (audience_id ∷ []) (((omega arith, tt), omega arith), tt) (omega arith) in_range
