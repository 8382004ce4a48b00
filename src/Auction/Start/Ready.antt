-- ===== src/Auction/Start/Ready.antt =====
-- An auction over caches made from the database is ready, and stays so.
use guidance_for_building_a.Common.{
  ◌≡◌, refl, List, [], ◌∷◌, none, some, All, All-append, Bool-cases, inl, inr, arith,
}
use guidance_for_building_a.Common.Int64.{IsInt64}
use guidance_for_building_a.Api
use guidance_for_building_a.Cache.Audiences
use guidance_for_building_a.Cache.Devices
use guidance_for_building_a.Api.{Campaign, Validation, is_valid, Scan, Result, ok, err}
use guidance_for_building_a.Random.{Random}
use guidance_for_building_a.Cache.Campaigns.{
  CampaignCache, consume, consume_all, empty, new_campaign,
}
use guidance_for_building_a.Cache.Campaigns.Index.{new_campaign-IsIndexed}
use guidance_for_building_a.Cache.Audiences.{AudienceCache, new_audience}
use guidance_for_building_a.Cache.Audiences.Targets.{targets-lt}
use guidance_for_building_a.Cache.Budgets.State.{scan_state-deposits}
use guidance_for_building_a.Auction.Run.{Auction}
use guidance_for_building_a.Auction.Run.Spec.{IsReady}
use guidance_for_building_a.Auction.Start.{
  Database, new_budget, auction_of, with_budget, with_audience, with_campaign, new_auction,
}

words-consume_all :
    (v : Validation) (c : CampaignCache) (xs : List Campaign)
    → All (λ x. IsInt64 x.max_cpm) c.campaigns
    → All (λ x. IsInt64 x.max_cpm) xs
    → All (λ x. IsInt64 x.max_cpm) (consume_all v c xs).campaigns
unfolding consume_all consume
words-consume_all v c [] h h' = h
words-consume_all v c (x ∷ xs) h h' =
    words-consume_all v (consume v c x) xs
      (elim (Bool-cases (is_valid v x)) [
        | inl good ↦ rw good (All-append (λ y. IsInt64 y.max_cpm) c.campaigns (x ∷ []) h (h'.0, tt))
        | inr bad ↦ rw bad h
      ])
      h'.1

words-new_campaign :
    (v : Validation) (repository : Scan Campaign) (c : CampaignCache)
    → All (λ x. IsInt64 x.max_cpm) repository.items
    → new_campaign v repository ≡ ok c
    → All (λ x. IsInt64 x.max_cpm) c.campaigns
unfolding new_campaign
words-new_campaign v repository c h e =
    let same : consume_all v empty repository.items ≡ c = ground arith in
    rw (← same) (words-consume_all v empty repository.items tt h)

module _ (r : Random) where
  -- If the database ends its three scans without an error and hands out int64 values, the auction
  -- is made without a panic and without an error, and it is ready: each target of an audience is a
  -- cached campaign, and each of these has an int64 as its budget and as its MaxCPM.
  pub new_auction-IsReady :
      (v : Validation) (db : Database)
      → db.campaign_repo.error ≡ none
      → db.audience_repo.error ≡ none
      → db.budget_repo.error ≡ none
      → All (λ x. IsInt64 x.max_cpm) db.campaign_repo.items
      → (a : Auction r) × (new_auction r v db ≡ some (ok a)) × IsReady r 0 a
  unfolding new_auction with_campaign with_audience with_budget new_budget auction_of
  new_auction-IsReady v db no_campaign_error no_audience_error no_budget_error words =
      let (c, ec) = made v db.campaign_repo no_campaign_error in
      let (au, ea) = heard db.audience_repo c no_audience_error in
      let indexed = new_campaign-IsIndexed v db.campaign_repo c ec in
      let (b, eb, s, f) = scan_state-deposits v c indexed db.budget_repo no_budget_error in
      let a =
        auction_of r (Devices.new_device r db.device_query_disable db.device_repo au) au c b in
      (
        a,
        rw (ec, ea, eb) refl,
        record {
          targets = λ i. targets-lt v db.audience_repo c au i indexed ea;
          budgets = s;
          words = words-new_campaign v db.campaign_repo c words ec;
          tables = tt;
        },
      )
    where
      made :
          (v : Validation) (repository : Scan Campaign)
          → repository.error ≡ none
          → (c : CampaignCache) × (new_campaign v repository ≡ ok c)
      made v repository e = (consume_all v empty repository.items, unfold new_campaign in rw e refl)

      heard :
          (repository : Scan Api.Audience) (campaigns : CampaignCache)
          → repository.error ≡ none
          → (c : AudienceCache) × (new_audience repository campaigns ≡ ok c)
      heard repository campaigns e = (
        Audiences.consume_all campaigns (record { entries = [] }) repository.items,
        unfold new_audience in rw e refl,
      )
