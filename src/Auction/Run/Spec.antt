-- ===== src/Auction/Run/Spec.antt =====
-- What is promised of an auction: the answers, and what happens to the budgets.
use guidance_for_building_a.Common.{
  ℕ, ◌+◌, ◌<◌, ◌≡◌, ◌≢◌, List, false, Option, none, some, get_elem?, All, ◌==◌, if◌then◌else◌,
}
use guidance_for_building_a.Common.Int64.{IsInt64, sub64}
use guidance_for_building_a.Id.{ItemId}
use guidance_for_building_a.Api.{Error, item_not_found, timeout, Campaign}
use guidance_for_building_a.Random.{Random}
use guidance_for_building_a.Cache.Campaigns
use guidance_for_building_a.Cache.Campaigns.{CampaignCache, size}
use guidance_for_building_a.Cache.Audiences
use guidance_for_building_a.Cache.Audiences.{AudienceCache}
use guidance_for_building_a.Cache.Budgets.{BudgetState}
use guidance_for_building_a.Cache.Budgets.State.{funds, IsState}
use guidance_for_building_a.Auction.Indices.{contains}
use guidance_for_building_a.Auction.Candidates.Unique.{IsTable}
use guidance_for_building_a.Auction.Candidates.Listing.{targeting}
use guidance_for_building_a.Auction.Choose.Reserve.{price}
use guidance_for_building_a.Auction.Choose.Winner.{IsWinner}
use guidance_for_building_a.Auction.Run.{
  Auction, Request, Item, Answer, bid, no_bid, timed_out, failed,
}

-- What auctions rely on: the targets of the audiences are cached campaigns, which have a budget
-- and an int64 MaxCPM, and `n` auctions at most have used the lookup tables.
pub record IsReady (r : Random) (n : ℕ) (a : Auction r) : Type 0 where
  pub targets : (i : ItemId) → All (λ c. c < size a.campaign) (Audiences.get a.audience i)
  pub budgets : IsState (size a.campaign) a.budget
  pub words : All (λ c. IsInt64 c.max_cpm) a.campaign.campaigns
  pub tables : All (IsTable n) a.campaign_lookup_pool

-- The answer to a request from a device with the audiences `ids`, or with the error of its query;
-- the budgets and the number of update requests before and after.
pub data Outcome (campaigns : CampaignCache) (audience : AudienceCache) (b : BudgetState) (k : ℕ)
    (request : Request) (ids : List ItemId) : Option Error → Answer → BudgetState → ℕ → Type 0 where
  unknown : Outcome campaigns audience b k request ids (some item_not_found) no_bid b k
  late : Outcome campaigns audience b k request ids (some timeout) timed_out b k
  broken :
      (e : Error)
      → e ≢ item_not_found
      → e ≢ timeout
      → Outcome campaigns audience b k request ids (some e) (failed e) b k
  untargeted :
      ((i : ℕ) → contains i (targeting audience ids) ≡ false)
      → Outcome campaigns audience b k request ids none no_bid b k
  exhausted :
      {b' : BudgetState}
      → IsWinner campaigns b (targeting audience ids) none
      → ((i : ℕ) → funds b' i ≡ funds b i)
      → Outcome campaigns audience b k request ids none no_bid b' (k + 1)
  sold :
      {b' : BudgetState} (i : ℕ) (item : Item) (c : Campaign)
      → get_elem? request.item 0 ≡ some item
      → Campaigns.get campaigns i ≡ some c
      → IsWinner campaigns b (targeting audience ids) (some i)
      → ((j : ℕ)
          → funds b' j ≡ (if j == i then sub64 (funds b j) (price campaigns j) else funds b j))
      → Outcome campaigns audience b k request ids none
          (bid (record { request = request; item = item; campaign = c; price = c.max_cpm }))
          b'
          k

abbrev pub Answers :
    (r : Random) (a : Auction r) (request : Request) (ids : List ItemId)
    → Option Error
    → Answer
    → Auction r
    → Type 0
Answers r a request ids e answer a' =
    Outcome a.campaign a.audience a.budget a.update_requests request ids e answer a'.budget
      a'.update_requests
