-- ===== src/LoadGenerator/Requests/Tests.antt =====
-- A request for one of a hundred devices, with a cipher that changes nothing.
use guidance_for_building_a.Common.{
  ℕ, ◌+◌, ◌-◌, ◌<◌, ◌≤◌, ◌≡◌, refl, false, some, ltb, if◌then◌else◌, arith,
}
use guidance_for_building_a.Id.Hex.{from_hex}
use guidance_for_building_a.Random.Counter.{counter, counter-IsBounded}
use guidance_for_building_a.Datagen.Encryptor.{
  Cipher, IsAes, IsReady, encrypt, new_default_encryptor,
}
use guidance_for_building_a.LoadGenerator.Requests.{max_database_device_id, generate_device_ifa}
use guidance_for_building_a.LoadGenerator.Requests.Devices.{
  HasBytes, at_least_one, generate_device_ifa-encrypt,
}

abbrev unchanged : Cipher
unchanged = record { encrypt = λ b. b; decrypt = λ b. b }

unchanged-IsAes : IsAes unchanged
unchanged-IsAes = record { length_encrypt = λ b e. e; decrypt_encrypt = λ b e. refl }

unchanged-HasBytes : HasBytes unchanged
unchanged-HasBytes = record { bytes = λ b h. h }

ready : IsReady new_default_encryptor
unfolding new_default_encryptor
ready = record { zeros = refl; text_length = refl; encrypted_length = refl }

generate_device_ifa-encrypt_example :
    (n : ℕ) × (from_hex
        (generate_device_ifa counter unchanged new_default_encryptor 5 false 20 100).0
      ≡ some (encrypt unchanged n))
    × IsReady (generate_device_ifa counter unchanged new_default_encryptor 5 false 20 100).1
    × (0 < n)
    × (ltb max_database_device_id n ≡ false)
    × (n ≤ (
        if false then max_database_device_id + at_least_one (20 - 1) else at_least_one (100 - 1)))
generate_device_ifa-encrypt_example =
    generate_device_ifa-encrypt counter counter-IsBounded unchanged unchanged-IsAes
      unchanged-HasBytes new_default_encryptor 5 false 20 100 ready (omega arith)
