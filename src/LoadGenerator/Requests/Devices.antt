-- ===== src/LoadGenerator/Requests/Devices.antt =====
-- Which devices the requests are of.
use guidance_for_building_a.Common.{
  ℕ, ◌+◌, ◌-◌, ◌%◌, ◌<◌, ◌≤◌, ◌≡◌, ap, ◌∙◌, List, Bool, true, false, some, ltb, leb, if◌then◌else◌,
  All, Bool-cases, inl, inr, arith,
}
use guidance_for_building_a.Id.Hex.{encode_to_string, from_hex, from_hex-encode_to_string}
use guidance_for_building_a.Random.{Random, IsBounded}
use guidance_for_building_a.Datagen.Encryptor.{
  Cipher, IsAes, Encryptor, IsReady, encrypt, encrypt_in_place, encrypt_in_place-encrypt,
  length-encrypt, block_of, put_uint64_big,
}
use guidance_for_building_a.Database.Bytes.{put_uint64, to_bytes}
use guidance_for_building_a.LoadGenerator.Requests.{
  max_database_device_id, random_int64, device_id, generate_device_ifa,
}

-- The cipher makes bytes of bytes.
pub record HasBytes (c : Cipher) : Type 0 where
  pub bytes : (b : List ℕ) → All (λ x. x < 256) b → All (λ x. x < 256) (c.encrypt b)

block_of-bytes : (n : ℕ) → All (λ x. x < 256) (block_of n)
unfolding block_of put_uint64_big put_uint64 to_bytes
block_of-bytes n =
    let z : 0 < 256 = omega arith in
    let m : (k : ℕ) → k % 256 < 256 = λ k. omega arith in
    (
      z,
      (z, (z, (z, (z, (z, (z, (z, (m _, (m _, (m _, (m _, (m _, (m _, (m _, (m _, tt))))))))))))))),
    )

-- One at least.
abbrev pub at_least_one : ℕ → ℕ
at_least_one n = if ltb n 1 then 1 else n

module _ (r : Random) (bounded : IsBounded r) where
  device_id_lem :
      (rng : r.Rng) (make_nobid : Bool) (max_id devices_used : ℕ)
      → devices_used ≤ max_database_device_id
      → let n = (device_id r rng make_nobid max_id devices_used).0 in
        (0 < n)
        × (ltb max_database_device_id n ≡ make_nobid)
        × (n ≤ (
            if make_nobid
            then max_database_device_id + at_least_one (max_id - 1)
            else at_least_one (devices_used - 1)))
  unfolding device_id random_int64
  device_id_lem rng true max_id devices_used few = elim (Bool-cases (leb max_id 1)) [
    | inl e ↦ rw e (omega arith, ground arith, ground (arith, e))
    | inr e ↦
        let span = (max_database_device_id + max_id) - (max_database_device_id + 1) in
        let lt = bounded.intn_lt rng span (ground (arith, e)) in
        rw e (omega arith, ground (arith, lt), ground (arith, lt, e))
  ]
  device_id_lem rng false max_id devices_used few = elim (Bool-cases (ltb 1 devices_used)) [
    | inl e ↦
        let lt = bounded.intn_lt rng (devices_used - 1) (ground (arith, e)) in
        rw e (omega arith, ground (arith, lt, few, e), ground (arith, lt, e))
    | inr e ↦ rw e (omega arith, ground arith, ground (arith, e))
  ]

  module _ (c : Cipher) (aes : IsAes c) (has : HasBytes c) where
    -- From an encryptor that is ready, and for at most 10 ^ 11 devices: the text is that of an identifier
    -- that the data generator makes for a number; the number is above 10 ^ 11, where no device of the
    -- database is, exactly if there is to be no bid, and it is 1 at least. Of the devices used the last
    -- one is left out, unless it is the only one; so is the last of those out of the database. The
    -- encryptor is ready again.
    pub generate_device_ifa-encrypt :
        (e : Encryptor) (rng : r.Rng) (make_nobid : Bool) (max_id devices_used : ℕ)
        → IsReady e
        → devices_used ≤ max_database_device_id
        → (n : ℕ) × (from_hex (generate_device_ifa r c e rng make_nobid max_id devices_used).0
            ≡ some (encrypt c n))
          × IsReady (generate_device_ifa r c e rng make_nobid max_id devices_used).1
          × (0 < n)
          × (ltb max_database_device_id n ≡ make_nobid)
          × (n ≤ (
              if make_nobid
              then max_database_device_id + at_least_one (max_id - 1)
              else at_least_one (devices_used - 1)))
    unfolding generate_device_ifa encrypt
    generate_device_ifa-encrypt e rng make_nobid max_id devices_used ready few =
        let n = (device_id r rng make_nobid max_id devices_used).0 in
        let (same, ready') = encrypt_in_place-encrypt c aes e n ready in
        let text : from_hex (encode_to_string (encrypt_in_place c e n).1) ≡ some (encrypt c n) =
          ap (λ b. from_hex (encode_to_string b)) same
          ∙ from_hex-encode_to_string (encrypt c n) (length-encrypt c aes n)
              (has.bytes (block_of n) (block_of-bytes n)) in
        let (positive, out, high) = device_id_lem rng make_nobid max_id devices_used few in
        (n, text, ready', positive, out, high)
