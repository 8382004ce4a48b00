-- ===== src/Datagen/Records/Stored.antt =====
-- What the generators store: an amount lies in its range, and a device is read back by the bidder.
use guidance_for_building_a.Common.{
  ℕ, zero, suc, ◌+◌, ◌-◌, ◌^◌, ◌%◌, ◌≤◌, ◌<◌, ◌≡◌, refl, ap, subst, sym, ◌∙◌, List, [], ◌∷◌, ◌++◌,
  true, false, none, some, ◌==◌, length, append_assoc, append-nil, arith, ltb,
}
use guidance_for_building_a.Common.Int64.{add64, sub64, is_nonneg, u64_mod}
use guidance_for_building_a.Database.Budgets.{binary}
use guidance_for_building_a.Database.Devices.{
  concat, unmarshall_device_attributes_v2, unmarshall_device-concat,
}
use guidance_for_building_a.Datagen.Config.{Config, IsRange}
use guidance_for_building_a.Datagen.Keys.{each, keys_between, count_up, each_key_ends}
use guidance_for_building_a.Datagen.Encryptor.{Cipher, IsAes, encrypt}
use guidance_for_building_a.Datagen.Audiences.Keys.{given, IsBounded, NoRepeat, audiences_lem}
use guidance_for_building_a.Datagen.Records.{
  Device, device_body, device_generator, remainder, amount_between,
}

pub amount_between_bounds :
    (r low high : ℕ)
    → IsRange low high
    → r < 2 ^ 63
    → (a : ℕ) × (amount_between r low high ≡ some a) × (low ≤ a) × (a ≤ high)
unfolding amount_between remainder add64 sub64 is_nonneg
amount_between_bounds r low high (pos, le, small) h =
    let d : ℕ = high + 1 - low in
    let same : ((high + 1) % u64_mod + u64_mod - low) % u64_mod ≡ d = omega arith in
    let nonzero : (d == 0) ≡ false = ground arith in
    let rest : r % d < d = grind arith in
    let positive : ltb d (2 ^ 63) ≡ true = ground arith in
    (
      r % d + low,
      rw (same, nonzero, positive) (ap some (omega (arith, rest))),
      omega arith,
      omega (arith, rest),
    )

module _ (c : Cipher) (cfg : Config) where
  -- A device of the database and the key it was made from: the bidder reads the audiences that the
  -- key is to have, between `MinAudiences` and `MaxAudiences` of them and none twice.
  pub record IsStored (key : ℕ) (d : Device) : Type 0 where
    pub id : d.device_id ≡ encrypt c key
    pub read :
        unmarshall_device_attributes_v2 (some (binary d.audience_ids)) [] ≡ (given c cfg key, none)
    pub enough : cfg.min_audiences ≤ length (given c cfg key)
    pub few : length (given c cfg key) ≤ cfg.max_audiences
    pub distinct : NoRepeat (given c cfg key)

  abbrev pub Stored : List ℕ → List Device → Type 0
  Stored [] [] = Unit {0}
  Stored [] (d ∷ ds) = ⊥
  Stored (k ∷ ks) [] = ⊥
  Stored (k ∷ ks) (d ∷ ds) = IsStored k d × Stored ks ds

  module _ (h : IsAes c) (b : IsBounded cfg) where
    device_body_lem :
        (k : ℕ) (out : List Device)
        → k + cfg.max_audiences ≤ u64_mod
        → (d : Device) × (device_body c cfg k out ≡ some (out ++ d ∷ [])) × IsStored k d
    unfolding device_body
    device_body_lem k out fits =
        let (is, _, bytes, lens, low, high, apart, exact) = audiences_lem cfg b k c h fits in
        (
          record { device_id = encrypt c k; audience_ids = concat is },
          rw bytes refl,
          record {
            id = refl;
            read = (unmarshall_device-concat is [] lens).1 ∙ ap (λ l. (l, none)) exact;
            enough = subst (λ l. cfg.min_audiences ≤ length l) exact low;
            few = subst (λ l. length l ≤ cfg.max_audiences) exact high;
            distinct = subst NoRepeat exact apart;
          },
        )

    each_device :
        (n k : ℕ) (out : List Device)
        → k + n + cfg.max_audiences ≤ u64_mod + 1
        → (ds : List Device) × (each (device_body c cfg) (count_up n k) out ≡ some (out ++ ds))
          × Stored (count_up n k) ds
    unfolding each count_up
    each_device zero k out fits = ([], ap some (sym (append-nil out)), tt)
    each_device (suc n) k out fits =
        let (d, one, stored) = device_body_lem k out (omega arith) in
        let (ds, rest, all) = each_device n (k + 1) (out ++ d ∷ []) (omega arith) in
        (d ∷ ds, rw (one, rest) (ap some (append_assoc out (d ∷ []) ds)), (stored, all))

    -- For AES, and bounds of the audiences as `Resolve` leaves them where they are not negative: if the
    -- lowest key is not above the highest, the highest is below 2 ^ 64 - 1 and with the most audiences
    -- at most 2 ^ 64, and the fuel is more than the number of keys, the generator of devices ends with
    -- one device for each key between `KeyLow` and `KeyHigh`, in order, under the key's identifier. From
    -- the device of a key the bidder reads the identifiers of the numbers `(key + i) % MaxAudienceID + 1`
    -- for `i` from 0 on, `key % (MaxAudiences - MinAudiences + 1) + MinAudiences` of them; that is
    -- between the two bounds, and none comes twice.
    pub device_generator-Stored :
        (fuel : ℕ)
        → cfg.key_high + 1 - cfg.key_low < fuel
        → cfg.key_high + 1 < u64_mod
        → cfg.key_low ≤ cfg.key_high
        → cfg.key_high + cfg.max_audiences ≤ u64_mod
        → (ds : List Device) × (device_generator c cfg fuel ≡ some ds)
          × Stored (keys_between cfg.key_low cfg.key_high) ds
    unfolding device_generator
    device_generator-Stored fuel enough top order fits =
        let (ds, made, all) =
          each_device (cfg.key_high + 1 - cfg.key_low) cfg.key_low [] (omega arith) in
        (
          ds,
          each_key_ends (device_body c cfg) fuel cfg.key_low cfg.key_high [] top enough ∙ made,
          all,
        )
