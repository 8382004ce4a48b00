-- ===== src/Auction/Candidates.antt =====
-- `getAudienceCampaigns` of apps/bidder/code/auction/auction.go and the lookup tables of pool.go: the
-- campaigns that target some of the audiences, each once.
pub mod Listing
pub mod Unique
use guidance_for_building_a.Common.{
  ℕ, ◌+◌, ◌%◌, List, [], ◌∷◌, ◌++◌, Option, none, some, length, get_elem?, set, replicate, ltb,
  ◌==◌, if◌then◌else◌, ◌>>=◌,
}
use guidance_for_building_a.Common.Int64.{u64_mod}
use guidance_for_building_a.Id.{ItemId}
use guidance_for_building_a.Cache.Audiences
use guidance_for_building_a.Cache.Audiences.{AudienceCache}

-- `campaignLookup`; an entry that is the number of the run marks a campaign as seen.
pub record CampaignLookup : Type 0 where
  pub lookup : List ℕ
  pub run_id : ℕ

-- `campaignLookupPool.get`
unfoldable pub get_lookup : List CampaignLookup → CampaignLookup × List CampaignLookup
get_lookup [] = (record { lookup = []; run_id = 0 }, [])
get_lookup (l ∷ pool) = (l, pool)

-- `// Initialize lookup table.`
unfoldable pub initialize : ℕ → CampaignLookup → CampaignLookup
initialize size l = record {
  lookup = if ltb (length l.lookup) size then replicate size 0 else l.lookup;
  run_id = (l.run_id + 1) % u64_mod;
}

-- The body of the inner loop; `none` is the panic of an index out of range.
unfoldable pub visit : CampaignLookup → List ℕ → ℕ → Option (List ℕ × CampaignLookup)
visit l campaign_indices c = do
  seen ← get_elem? l.lookup c
  some (
      if seen == l.run_id
      then (campaign_indices, l)
      else (campaign_indices ++ c ∷ [], record l { lookup = set l.lookup c l.run_id }))

-- The inner loop.
unfoldable pub add_campaigns : CampaignLookup → List ℕ → List ℕ → Option (List ℕ × CampaignLookup)
add_campaigns l campaign_indices [] = some (campaign_indices, l)
add_campaigns l campaign_indices (c ∷ cs) = do
  (campaign_indices', l') ← visit l campaign_indices c
  add_campaigns l' campaign_indices' cs

-- The outer loop.
unfoldable pub add_audiences :
    AudienceCache → CampaignLookup → List ℕ → List ItemId → Option (List ℕ × CampaignLookup)
add_audiences audience l campaign_indices [] = some (campaign_indices, l)
add_audiences audience l campaign_indices (a ∷ rest) = do
  (campaign_indices', l') ← add_campaigns l campaign_indices (Audiences.get audience a)
  add_audiences audience l' campaign_indices' rest

-- `getAudienceCampaigns`, with the size of the campaign cache and the pool of tables.
unfoldable pub get_audience_campaigns :
    AudienceCache → ℕ → List CampaignLookup → List ItemId → Option (List ℕ × List CampaignLookup)
get_audience_campaigns audience size pool audience_ids = do
  let (l, pool') = get_lookup pool
  (campaign_indices, l') ← add_audiences audience (initialize size l) [] audience_ids
  some (campaign_indices, l' ∷ pool')
