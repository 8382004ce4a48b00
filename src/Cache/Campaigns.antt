-- ===== src/Cache/Campaigns.antt =====
-- apps/bidder/code/cache/campaign.go: campaigns by index, and the index of an identifier.
pub mod Index
use guidance_for_building_a.Common.{
  ℕ, suc, List, [], ◌∷◌, ◌++◌, Bool, Option, none, some, length, get_elem?, if◌then◌else◌,
}
use guidance_for_building_a.Id.{ItemId, lookup, insert}
use guidance_for_building_a.Api.{Campaign, Validation, is_valid, Scan, Result, ok, err}

pub record CampaignCache : Type 0 where
  pub campaigns : List Campaign
  pub id_to_index : List (ItemId × ℕ)

-- `Get`; `none` is the panic of an index out of range.
unfoldable pub get : CampaignCache → ℕ → Option Campaign
get c i = get_elem? c.campaigns i

-- `GetAll`
unfoldable pub get_all : CampaignCache → List Campaign
get_all c = c.campaigns

-- `GetIndex`
unfoldable pub get_index : CampaignCache → ItemId → Option ℕ
get_index c i = lookup i c.id_to_index

-- `Size`
unfoldable pub size : CampaignCache → ℕ
size c = length c.campaigns

abbrev pub empty : CampaignCache
empty = record { campaigns = []; id_to_index = [] }

-- The consumer of `newCampaign`.
unfoldable pub consume : Validation → CampaignCache → Campaign → CampaignCache
consume v c campaign =
    if is_valid v campaign
    then record {
      campaigns = c.campaigns ++ campaign ∷ [];
      id_to_index = insert campaign.id (length c.campaigns) c.id_to_index;
    }
    else c

unfoldable pub consume_all : Validation → CampaignCache → List Campaign → CampaignCache
consume_all v c [] = c
consume_all v c (x ∷ xs) = consume_all v (consume v c x) xs

unfoldable pub new_campaign : Validation → Scan Campaign → Result CampaignCache
new_campaign v repository =
    let cache = consume_all v empty repository.items in
    elim repository.error [ none ↦ ok cache | some e ↦ err e ]
