-- ===== src/Auction/Start.antt =====
-- `New` of apps/bidder/code/cache/cache.go and of apps/bidder/code/auction/auction.go: the caches that
-- are made from the database, and the auction over them.
pub mod Ready
pub mod Serve
use guidance_for_building_a.Common.{ℕ, List, [], Bool, Option, none, some, ◌>>=◌}
use guidance_for_building_a.Api.{Audience, Budget, Campaign, Validation, Scan, Result, ok, err}
use guidance_for_building_a.Random.{Random}
use guidance_for_building_a.Cache.Campaigns.{CampaignCache, new_campaign}
use guidance_for_building_a.Cache.Audiences.{AudienceCache, new_audience}
use guidance_for_building_a.Cache.Budgets.{BudgetState, scan_state}
use guidance_for_building_a.Cache.Devices.{Query, DeviceCache, new_device}
use guidance_for_building_a.Auction.Run.{Auction}

-- What the repositories hand out, and the configuration that `New` reads.
pub record Database : Type 0 where
  pub audience_repo : Scan Audience
  pub budget_repo : Scan Budget
  pub campaign_repo : Scan Campaign
  pub device_repo : Query
  pub device_query_disable : Bool

-- `newBudget`: the first state.
unfoldable pub new_budget : Scan Budget → CampaignCache → Option (Result BudgetState)
new_budget repository campaigns = scan_state campaigns repository

module _ (r : Random) where
  -- `auction.New`
  unfoldable pub auction_of :
      DeviceCache r → AudienceCache → CampaignCache → BudgetState → Auction r
  auction_of device audience campaign budget = record {
    device = device;
    audience = audience;
    campaign = campaign;
    budget = budget;
    update_requests = 0;
    pool = [];
    campaign_lookup_pool = [];
  }

  -- What is left of `cache.New` once the budgets are there.
  unfoldable pub with_budget :
      Database → AudienceCache → CampaignCache → Result BudgetState → Result (Auction r)
  with_budget db audience campaign (err e) = err e
  with_budget db audience campaign (ok budget) = ok (
      auction_of (new_device r db.device_query_disable db.device_repo audience) audience campaign
        budget)

  unfoldable pub with_audience :
      Database → CampaignCache → Result AudienceCache → Option (Result (Auction r))
  with_audience db campaign (err e) = some (err e)
  with_audience db campaign (ok audience) = do
    budget ← new_budget db.budget_repo campaign
    some (with_budget db audience campaign budget)

  unfoldable pub with_campaign : Database → Result CampaignCache → Option (Result (Auction r))
  with_campaign db (err e) = some (err e)
  with_campaign db (ok campaign) =
      with_audience db campaign (new_audience db.audience_repo campaign)

  -- `cache.New`, and the auction over the caches.
  unfoldable pub new_auction : Validation → Database → Option (Result (Auction r))
  new_auction v db = with_campaign db (new_campaign v db.campaign_repo)
