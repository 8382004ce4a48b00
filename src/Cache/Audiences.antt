-- ===== src/Cache/Audiences.antt =====
-- apps/bidder/code/cache/audience.go: the campaigns, by index, that target an audience.
pub mod Targets
use guidance_for_building_a.Common.{ℕ, List, [], ◌∷◌, Option, none, some}
use guidance_for_building_a.Id.{ItemId, lookup, insert}
use guidance_for_building_a.Api.{Audience, Scan, Result, ok, err}
use guidance_for_building_a.Cache.Campaigns.{CampaignCache, get_index}

pub record AudienceCache : Type 0 where
  pub entries : List (ItemId × List ℕ)

-- `Get`; a missing key gives the nil slice.
unfoldable pub get : AudienceCache → ItemId → List ℕ
get c audience_id = elim (lookup audience_id c.entries) [ none ↦ [] | some is ↦ is ]

-- `GetAll`
unfoldable pub get_all : AudienceCache → List (ItemId × List ℕ)
get_all c = c.entries

-- The loop of the consumer: identifiers without an index are left out.
unfoldable pub campaign_indices : CampaignCache → List ItemId → List ℕ
campaign_indices campaigns [] = []
campaign_indices campaigns (i ∷ is) =
    let rest = campaign_indices campaigns is in
    elim (get_index campaigns i) [ none ↦ rest | some n ↦ n ∷ rest ]

-- The consumer of `newAudience`.
unfoldable pub consume : CampaignCache → AudienceCache → Audience → AudienceCache
unfolding campaign_indices
consume campaigns c a = record {
  entries = insert a.audience_id (campaign_indices campaigns a.campaign_ids) c.entries;
}

unfoldable pub consume_all : CampaignCache → AudienceCache → List Audience → AudienceCache
consume_all campaigns c [] = c
consume_all campaigns c (a ∷ rest) = consume_all campaigns (consume campaigns c a) rest

unfoldable pub new_audience : Scan Audience → CampaignCache → Result AudienceCache
new_audience repository campaigns =
    let cache = consume_all campaigns (record { entries = [] }) repository.items in
    elim repository.error [ none ↦ ok cache | some e ↦ err e ]
