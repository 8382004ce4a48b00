-- ===== src/Datagen/Records.antt =====
-- The generators of devices, campaigns and reversed audiences: devices.go, campaign.go and
-- audience.go of tools/datagen/pkg/generator. What is sent to the channel is listed in order.
pub mod Stored
use guidance_for_building_a.Common.{
  ℕ, ◌+◌, ◌-◌, ◌%◌, ◌<◌, List, [], ◌∷◌, ◌++◌, Option, none, some, ◌==◌, if◌then◌else◌, ◌>>=◌,
}
use guidance_for_building_a.Common.Int64.{add64, sub64, is_nonneg, u64_mod}
use guidance_for_building_a.Id.{ItemId}
use guidance_for_building_a.Datagen.Config.{Config}
use guidance_for_building_a.Datagen.Keys.{each_key}
use guidance_for_building_a.Datagen.Encryptor.{Cipher, encrypt}
use guidance_for_building_a.Datagen.Audiences.{audiences_concat, audiences_slice}

pub record Device : Type 0 where
  pub device_id : ItemId
  pub audience_ids : List ℕ

pub record Campaign : Type 0 where
  pub campaign_id : ItemId
  pub bid_price : ℕ

pub record ReversedAudience : Type 0 where
  pub campaign_id : ItemId
  pub audience_ids : List ItemId

-- `a % b` of an int64 `a` that is not negative: the divisor's sign does not count.
unfoldable pub remainder : ℕ → ℕ → Option ℕ
remainder a b = if b == 0 then none else some (a % (if is_nonneg b then b else u64_mod - b))

-- `(rand.Int63() % (max + 1 - min)) + min`
unfoldable pub amount_between : ℕ → ℕ → ℕ → Option ℕ
amount_between int63 low high = do
  r ← remainder int63 (sub64 (add64 high 1) low)
  some (add64 r low)

module _ (c : Cipher) (cfg : Config) where
  unfoldable pub device_body : ℕ → List Device → Option (List Device)
  device_body i out = do
    a ← audiences_concat c cfg i
    some (out ++ record { device_id = encrypt c i; audience_ids = a } ∷ [])

  -- `DeviceGenerator`
  unfoldable pub device_generator : ℕ → Option (List Device)
  device_generator fuel = each_key device_body fuel cfg.key_low cfg.key_high []

  unfoldable pub reversed_body : ℕ → List ReversedAudience → Option (List ReversedAudience)
  reversed_body i out = do
    is ← audiences_slice c cfg i
    some (out ++ record { campaign_id = encrypt c i; audience_ids = is } ∷ [])

  -- `ReversedAudienceGenerator`
  unfoldable pub reversed_audience_generator : ℕ → Option (List ReversedAudience)
  reversed_audience_generator fuel = each_key reversed_body fuel cfg.key_low cfg.key_high []

  -- `rand.Int63` is a stream: the draw at each key.
  module _ (int63 : ℕ → ℕ) where
    unfoldable pub campaign_body : ℕ → List Campaign → Option (List Campaign)
    campaign_body i out = do
      price ← amount_between (int63 i) cfg.min_bid_price cfg.max_bid_price
      some (out ++ record { campaign_id = encrypt c i; bid_price = price } ∷ [])

    -- `CampaignGenerator`
    unfoldable pub campaign_generator : ℕ → Option (List Campaign)
    campaign_generator fuel = each_key campaign_body fuel cfg.key_low cfg.key_high []
