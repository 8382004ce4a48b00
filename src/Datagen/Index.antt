-- ===== src/Datagen/Index.antt =====
-- `reverseIndex` of tools/datagen/pkg/generator/audience.go: from the audiences of each campaign to
-- the campaigns of each audience. The keys are hexadecimal texts. A campaign list is a slice that
-- the map's entry holds by pointer.
pub mod Inverse
use guidance_for_building_a.Common.{ℕ, List, [], ◌∷◌, ◌++◌, Option, none, some}
use guidance_for_building_a.Id.{ItemId, lookup, insert}
use guidance_for_building_a.Id.Hex.{encode_to_string}
use guidance_for_building_a.Api.{Audience}
use guidance_for_building_a.Datagen.Records.{ReversedAudience}

abbrev pub ReverseIndex : Type 0
ReverseIndex = List (List ℕ × Audience)

-- `add`
unfoldable pub add : ReverseIndex → ItemId → ItemId → ReverseIndex
add ri cid aid = elim (lookup (encode_to_string aid) ri) [
  | none ↦ insert (encode_to_string aid) (record { audience_id = aid; campaign_ids = cid ∷ [] }) ri
  | some rc ↦
      insert (encode_to_string aid) (record rc { campaign_ids = rc.campaign_ids ++ cid ∷ [] }) ri
]

unfoldable pub add_all : ReverseIndex → ItemId → List ItemId → ReverseIndex
add_all ri cid [] = ri
add_all ri cid (a ∷ as_) = add_all (add ri cid a) cid as_

-- The first loop of `Process`, over what comes from the channel.
unfoldable pub collect : ReverseIndex → List ReversedAudience → ReverseIndex
collect ri [] = ri
collect ri (c ∷ cs) = collect (add_all ri c.campaign_id c.audience_ids) cs

unfoldable pub records : ReverseIndex → List Audience
records [] = []
records ((k, rc) ∷ ri) = rc ∷ records ri

-- `Process`, with one of the orders in which a map is traversed
unfoldable pub process : ReverseIndex → List ReversedAudience → List Audience
process ri cs = records (collect ri cs)
