-- ===== src/LoadGenerator/Requests.antt =====
-- What the load generator puts in its requests: uuid.go, deviceIFAGenerator.go and `chooseTemplate` of
-- builder.go in tools/load-generator/code/request_builder. The share of requests that are to get no
-- bid is a number in floating point, and with it the random choice and the number of devices out of the
-- database are arguments.
pub mod Devices
mod Tests
use guidance_for_building_a.Common.{
  ℕ, ◌+◌, ◌-◌, ◌%◌, List, [], ◌∷◌, ◌++◌, Bool, true, false, ltb, leb, if◌then◌else◌, take, drop,
}
use guidance_for_building_a.Id.Hex.{encode_to_string}
use guidance_for_building_a.Random.{Random}
use guidance_for_building_a.Datagen.Encryptor.{Cipher, Encryptor, encrypt_in_place}

abbrev dash : ℕ
dash = 45

-- `uuid`, from the bytes that the generator gives
unfoldable pub uuid : List ℕ → List ℕ
uuid raw_buffer =
    encode_to_string (take 4 raw_buffer)
    ++ dash ∷ encode_to_string (take 2 (drop 4 raw_buffer))
    ++ dash ∷ encode_to_string (take 2 (drop 6 raw_buffer))
    ++ dash ∷ encode_to_string (take 2 (drop 8 raw_buffer))
    ++ dash ∷ encode_to_string (drop 10 raw_buffer)

abbrev pub max_database_device_id : ℕ
max_database_device_id = 100000000000

module _ (r : Random) where
  -- `randomInt64`
  unfoldable pub random_int64 : r.Rng → ℕ → ℕ → ℕ × r.Rng
  random_int64 rng min max = let (k, rng') = r.intn rng (max - min) in (k + min, rng')

  -- The number of the device.
  unfoldable pub device_id : r.Rng → Bool → ℕ → ℕ → ℕ × r.Rng
  device_id rng make_nobid max_id devices_used =
      if make_nobid
      then (if leb max_id 1
          then (max_database_device_id + 1, rng)
          else random_int64 rng (max_database_device_id + 1) (max_database_device_id + max_id))
      else (if ltb 1 devices_used then random_int64 rng 1 devices_used else (1, rng))

  -- `generateDeviceIFA`: the text, and the encryptor and the generator after it.
  unfoldable pub generate_device_ifa :
      Cipher → Encryptor → r.Rng → Bool → ℕ → ℕ → List ℕ × Encryptor × r.Rng
  generate_device_ifa c e rng make_nobid max_id devices_used =
      let (id, rng') = device_id rng make_nobid max_id devices_used in
      let (e', bytes) = encrypt_in_place c e id in (encode_to_string bytes, e', rng')
