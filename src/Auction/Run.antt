-- ===== src/Auction/Run.antt =====
-- The auction of a bid request: `Run`, `run` and `getDevice` of apps/bidder/code/auction/auction.go,
-- with request.go, response.go, error.go and the persistent data of pool.go. `none` is a panic.
pub mod Spec
pub mod Campaigns
pub mod Outcome
use guidance_for_building_a.Common.{
  ℕ, ◌+◌, List, [], ◌∷◌, Bool, Option, none, some, get_elem?, ◌>>=◌,
}
use guidance_for_building_a.Id.{ItemId}
use guidance_for_building_a.Api.{Error, item_not_found, timeout, Campaign}
use guidance_for_building_a.Random.{Random}
use guidance_for_building_a.Cache.Campaigns.{CampaignCache, size}
use guidance_for_building_a.Cache.Audiences.{AudienceCache}
use guidance_for_building_a.Cache.Budgets.{BudgetState}
use guidance_for_building_a.Cache.Devices
use guidance_for_building_a.Cache.Devices.{DeviceCache}
use guidance_for_building_a.Auction.Candidates.{CampaignLookup, get_audience_campaigns}
use guidance_for_building_a.Auction.Choose.{choose_campaign}

pub record Item : Type 0 where
  pub id : List ℕ

pub data Version : Type 0 where
  open_rtb2 open_rtb3 : Version

pub record Request : Type 0 where
  pub id : List ℕ
  pub item : List Item
  pub device_id : ItemId
  pub open_rtb_version : Version

pub record Response : Type 0 where
  pub request : Request
  pub item : Item
  pub campaign : Campaign
  pub price : ℕ

-- What `run` and `Run` return: a response, `ErrNoBid`, `ErrTimeout`, or an error of the database.
pub data Answer : Type 0 where
  bid : Response → Answer
  no_bid timed_out : Answer
  failed : Error → Answer

-- `if err != nil` after `getDevice`.
unfoldable pub device_error : Error → Answer
device_error item_not_found = no_bid
device_error timeout = failed timeout
device_error Error.bad_response_format = failed Error.bad_response_format
device_error (Error.other n) = failed (Error.other n)

-- `// Check if error is caused by database timeout.`
unfoldable pub check_timeout : Answer → Answer
check_timeout (bid response) = bid response
check_timeout no_bid = no_bid
check_timeout timed_out = timed_out
check_timeout (failed timeout) = timed_out
check_timeout (failed item_not_found) = failed item_not_found
check_timeout (failed Error.bad_response_format) = failed Error.bad_response_format
check_timeout (failed (Error.other n)) = failed (Error.other n)

module _ (r : Random) where
  -- `persistentData`; the winning auctions are local to `chooseCampaign`.
  pub record PersistentData : Type 0 where
    pub device : List ItemId
    pub campaign_indices : List ℕ
    pub rng : r.Rng

  -- `Auction`, with its cache, its two pools and the requests for a budget update sent so far.
  pub record Auction : Type 0 where
    pub device : DeviceCache r
    pub audience : AudienceCache
    pub campaign : CampaignCache
    pub budget : BudgetState
    pub update_requests : ℕ
    pub pool : List PersistentData
    pub campaign_lookup_pool : List CampaignLookup

  -- `pool.get`
  unfoldable pub get_data : List PersistentData → PersistentData × List PersistentData
  get_data [] = (record { device = []; campaign_indices = []; rng = r.new_rng }, [])
  get_data (pd ∷ pool) = (pd, pool)

  -- `getDevice`
  unfoldable pub get_device :
      Auction → ItemId → PersistentData → Option (Option Error × Auction × PersistentData)
  get_device a device_id pd = do
    (ids, e, device') ← Devices.get r a.device device_id []
    some (e, record a { device = device' }, record pd { device = ids })

  -- `*response = Response{…}`
  unfoldable pub respond : Request → Campaign → Option Response
  respond request campaign = do
    item ← get_elem? request.item 0
    some (record { request = request; item = item; campaign = campaign; price = campaign.max_cpm })

  -- `run` from `chooseCampaign` on.
  unfoldable pub run_campaigns :
      Auction → Request → PersistentData → Option (Answer × Auction × PersistentData)
  run_campaigns a request pd = do
    (campaign, budget', rng') ← choose_campaign r a.campaign a.budget pd.campaign_indices pd.rng
    let a' = record a { budget = budget' }
    let pd' = record pd { rng = rng' }
    elim campaign [
      | none ↦ some (no_bid, record a' { update_requests = a'.update_requests + 1 }, pd')
      | some c ↦ (do response ← respond request c; some (bid response, a', pd'))
    ]

  -- `if len(campaignIndices) == 0`
  unfoldable pub bid_among :
      List ℕ → Auction → Request → PersistentData → Option (Answer × Auction × PersistentData)
  bid_among [] a request pd = some (no_bid, a, pd)
  bid_among (_ ∷ _) a request pd = run_campaigns a request pd

  -- `run` from `getAudienceCampaigns` on.
  unfoldable pub run_audiences :
      Auction → Request → PersistentData → Option (Answer × Auction × PersistentData)
  run_audiences a request pd = do
    (is, tables) ←
        get_audience_campaigns a.audience (size a.campaign) a.campaign_lookup_pool pd.device
    let a' = record a { campaign_lookup_pool = tables }
    let pd' = record pd { campaign_indices = is }
    bid_among is a' request pd'

  -- `run`
  unfoldable pub run :
      Auction → Request → PersistentData → Option (Answer × Auction × PersistentData)
  run a request pd = do
    (e, a', pd') ← get_device a request.device_id pd
    elim e [ some x ↦ some (device_error x, a', pd') | none ↦ run_audiences a' request pd' ]

  -- `Run`
  unfoldable pub run_auction : Auction → Request → Option (Answer × Auction)
  run_auction a request = do
    let (pd, pool') = get_data a.pool
    (answer, a', pd') ← run (record a { pool = pool' }) request pd
    some (check_timeout answer, record a' { pool = pd' ∷ a'.pool })
