-- ===== src/Auction/Shop.antt =====
-- A small shop, for tests: two campaigns, of which the dearer one cannot pay.
use guidance_for_building_a.Common.{
  ◌≡◌, refl, [], ◌∷◌, ◌++◌, true, false, not, ◌==◌, none, some, All, replicate, subst, arith,
}
use guidance_for_building_a.Common.Int64.{IsInt64, add64}
use guidance_for_building_a.Id.{ItemId, lookup, insert, same}
use guidance_for_building_a.Api.{Campaign, Validation, ok, is_valid}
use guidance_for_building_a.Random.Counter.{counter}
use guidance_for_building_a.Cache.Campaigns
use guidance_for_building_a.Cache.Campaigns.{CampaignCache, size, get_index, new_campaign}
use guidance_for_building_a.Cache.Audiences
use guidance_for_building_a.Cache.Audiences.{campaign_indices, new_audience, get_all}
use guidance_for_building_a.Cache.Budgets
use guidance_for_building_a.Cache.Budgets.{BudgetState, scan_state, free}
use guidance_for_building_a.Cache.Devices
use guidance_for_building_a.Cache.Devices.{DeviceCache, new_device}
use guidance_for_building_a.Auction.Run.{Auction, Request, open_rtb2}
use guidance_for_building_a.Auction.Run.Spec.{IsReady}
use guidance_for_building_a.Auction.Start.{
  Database, new_auction, with_campaign, with_audience, with_budget, new_budget, auction_of,
}
use guidance_for_building_a.Auction.Start.Ready.{new_auction-IsReady}

abbrev pub validation : Validation
validation = record { required_id = λ i. true; required_int64 = λ n. not (n == 0) }

abbrev pub cheap : Campaign
cheap = record { hex_id = []; id = replicate 16 1; max_cpm = 100 }

abbrev pub dear : Campaign
dear = record { hex_id = []; id = replicate 16 2; max_cpm = 300 }

abbrev pub audience_id : ItemId
audience_id = replicate 16 3

abbrev pub query : Devices.Query
query i ids = (ids ++ audience_id ∷ [], none)

abbrev pub database : Database
database = record {
  audience_repo = record {
    items =
        record { audience_id = audience_id; campaign_ids = cheap.id ∷ dear.id ∷ cheap.id ∷ [] }
        ∷ [];
    error = none;
  };
  budget_repo = record {
    items =
        record { campaign_id = cheap.id; available = 150 }
        ∷ record { campaign_id = dear.id; available = 250 }
        ∷ [];
    error = none;
  };
  campaign_repo = record { items = cheap ∷ dear ∷ []; error = none };
  device_repo = query;
  device_query_disable = false;
}

abbrev pub request : Request
request = record {
  id = 7 ∷ [];
  item = record { id = 1 ∷ [] } ∷ [];
  device_id = replicate 16 9;
  open_rtb_version = open_rtb2;
}

pub words : All (λ (x : Campaign). IsInt64 x.max_cpm) (cheap ∷ dear ∷ [])
words = (omega arith, (omega arith, tt))

abbrev pub shop : Auction counter
shop = record {
  device = record { query = query; audiences = []; device_query_disable = false; rng_pool = [] };
  audience = record { entries = (audience_id, 0 ∷ 1 ∷ 0 ∷ []) ∷ [] };
  campaign = record {
    campaigns = cheap ∷ dear ∷ [];
    id_to_index = (cheap.id, 0) ∷ (dear.id, 1) ∷ [];
  };
  budget = record { available = 150 ∷ 250 ∷ [] };
  update_requests = 0;
  pool = [];
  campaign_lookup_pool = [];
}

new_auction-shop : new_auction counter validation database ≡ some (ok shop)
unfolding new_auction with_campaign with_audience with_budget new_budget auction_of new_campaign
    new_audience scan_state new_device Campaigns.consume_all Campaigns.consume Audiences.consume_all
    Audiences.consume campaign_indices Budgets.consume_all Budgets.consume free add64 is_valid
    get_index size lookup insert same get_all
new_auction-shop = refl

pub shop-IsReady : IsReady counter 0 shop
shop-IsReady =
    let (a, e, ready) = new_auction-IsReady counter validation database refl refl refl words in
    let same : a ≡ shop = cc (e, new_auction-shop) in subst (IsReady counter 0) same ready
