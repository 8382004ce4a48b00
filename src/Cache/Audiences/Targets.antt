-- ===== src/Cache/Audiences/Targets.antt =====
-- The audience cache holds, for each audience, the indices of cached campaigns.
use guidance_for_building_a.Common.{
  ℕ, ◌<◌, ◌≡◌, refl, false, List, [], ◌∷◌, Option, none, some, All, get_elem?_lt, Option-cases, inl,
  inr, if◌then◌else◌, arith,
}
use guidance_for_building_a.Id.{ItemId, lookup, lookup-insert, same}
use guidance_for_building_a.Api.{Audience, Campaign, Validation, Scan, ok}
use guidance_for_building_a.Cache.Campaigns.{CampaignCache, get_index, size, new_campaign}
use guidance_for_building_a.Cache.Campaigns
use guidance_for_building_a.Cache.Campaigns.Index.{
  IsIndexed, new_campaign-IsIndexed, get_index-none,
}
use guidance_for_building_a.Cache.Audiences.{
  AudienceCache, get, campaign_indices, consume, consume_all, new_audience,
}

-- The last of the scanned audiences with an identifier.
pub latest : ItemId → List Audience → Option Audience
latest i [] = none
latest i (a ∷ rest) =
    let here : Option Audience = if same a.audience_id i then some a else none in
    elim (latest i rest) [ none ↦ here | some b ↦ some b ]

abbrev or_targets : CampaignCache → Option Audience → Option (List ℕ) → Option (List ℕ)
or_targets campaigns none o = o
or_targets campaigns (some a) o = some (campaign_indices campaigns a.campaign_ids)

lookup-consume_all :
    (campaigns : CampaignCache) (c : AudienceCache) (xs : List Audience) (i : ItemId)
    → lookup i (consume_all campaigns c xs).entries
      ≡ or_targets campaigns (latest i xs) (lookup i c.entries)
unfolding consume_all consume latest
lookup-consume_all campaigns c [] i = refl
lookup-consume_all campaigns c (a ∷ rest) i = ground (
  arith,
  lookup-consume_all campaigns (consume campaigns c a) rest i,
  lookup-insert a.audience_id i (campaign_indices campaigns a.campaign_ids) c.entries,
)

abbrev pub targets : CampaignCache → Option Audience → List ℕ
targets campaigns none = []
targets campaigns (some a) = campaign_indices campaigns a.campaign_ids

pub get-targets :
    (repository : Scan Audience) (campaigns : CampaignCache) (c : AudienceCache) (i : ItemId)
    → new_audience repository campaigns ≡ ok c
    → get c i ≡ targets campaigns (latest i repository.items)
unfolding new_audience get lookup
get-targets repository campaigns c i h =
    ground (arith, lookup-consume_all campaigns (record { entries = [] }) repository.items i)

campaign_indices-lt :
    (v : Validation) (campaigns : CampaignCache) (is : List ItemId)
    → IsIndexed v campaigns
    → All (λ n. n < size campaigns) (campaign_indices campaigns is)
unfolding campaign_indices
campaign_indices-lt v campaigns [] h = tt
campaign_indices-lt v campaigns (i ∷ is) h = elim (Option-cases (get_index campaigns i)) [
  | inl e ↦ rw (e, campaign_indices) (campaign_indices-lt v campaigns is h)
  | inr (n, e) ↦
      let (k, at, has) = h.found i n e in
      rw (e, campaign_indices)
        (
          unfold Campaigns.get size in get_elem?_lt campaigns.campaigns n k at,
          campaign_indices-lt v campaigns is h,
        )
]

-- If the campaign cache is indexed and the audience cache was made over it without an error, the
-- indices that an audience has are below the size of the campaign cache.
pub targets-lt :
    (v : Validation) (repository : Scan Audience) (campaigns : CampaignCache) (c : AudienceCache)
    (i : ItemId)
    → IsIndexed v campaigns
    → new_audience repository campaigns ≡ ok c
    → All (λ n. n < size campaigns) (get c i)
targets-lt v repository campaigns c i h e =
    rw (get-targets repository campaigns c i e)
      (elim (latest i repository.items)
        as (λ o. All (λ n. n < size campaigns) (targets campaigns o)) [
          | none ↦ tt
          | some a ↦ campaign_indices-lt v campaigns a.campaign_ids h
        ])

-- The indices of the cached campaigns with these identifiers, in order; an identifier that no cached
-- campaign has is left out.
pub data Named (campaigns : CampaignCache) : List ItemId → List ℕ → Type 0 where
  nothing : Named campaigns [] []
  cached :
      (i : ItemId) (is : List ItemId) (n : ℕ) (ns : List ℕ) (k : Campaign)
      → Campaigns.get campaigns n ≡ some k
      → k.id ≡ i
      → Named campaigns is ns
      → Named campaigns (i ∷ is) (n ∷ ns)
  not_cached :
      (i : ItemId) (is : List ItemId) (ns : List ℕ)
      → All (λ k. same k.id i ≡ false) campaigns.campaigns
      → Named campaigns is ns
      → Named campaigns (i ∷ is) ns

-- What the campaigns of a record are to be, and of none.
abbrev pub NamedBy : CampaignCache → Option Audience → List ℕ → Type 0
NamedBy campaigns none ns = ns ≡ []
NamedBy campaigns (some a) ns = Named campaigns a.campaign_ids ns

module _ (v : Validation) (scan : Scan Campaign) (campaigns : CampaignCache)
    (made : new_campaign v scan ≡ ok campaigns) where
  campaign_indices-Named : (is : List ItemId) → Named campaigns is (campaign_indices campaigns is)
  unfolding campaign_indices
  campaign_indices-Named [] = nothing
  campaign_indices-Named (i ∷ is) = elim (Option-cases (get_index campaigns i)) [
    | inl e ↦
        rw (e, campaign_indices)
          (not_cached i is _ (get_index-none v scan campaigns i made e) (campaign_indices-Named is))
    | inr (n, e) ↦
        let (k, at, has) = (new_campaign-IsIndexed v scan campaigns made).found i n e in
        rw (e, campaign_indices) (cached i is n _ k at has (campaign_indices-Named is))
  ]

  -- If the campaign cache and over it the audience cache were made from their scans without an error, an
  -- audience has the campaigns that its last record in the database names, in that order: for each
  -- identifier the index of a cached campaign that has it, and nothing for one that no cached campaign
  -- has. An audience that the database does not have has none.
  pub new_audience-get :
      (repository : Scan Audience) (c : AudienceCache) (i : ItemId)
      → new_audience repository campaigns ≡ ok c
      → NamedBy campaigns (latest i repository.items) (get c i)
  new_audience-get repository c i h =
      rw (get-targets repository campaigns c i h)
        (elim (latest i repository.items) as (λ o. NamedBy campaigns o (targets campaigns o)) [
          | none ↦ refl
          | some a ↦ campaign_indices-Named a.campaign_ids
        ])
