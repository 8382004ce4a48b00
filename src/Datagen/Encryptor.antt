-- ===== src/Datagen/Encryptor.antt =====
-- `Encryptor` of tools/datagen/pkg/generator/encryptor.go and of
-- tools/load-generator/code/request_builder/encryptor.go. AES is a parameter.
use guidance_for_building_a.Common.{
  ℕ, ◌≡◌, refl, ap, sym, ◌∙◌, List, [], ◌++◌, Option, some, length, copy, copy_full, take, drop,
  replicate, take-append, drop-append, append-nil, length-copy, arith,
}
use mathlib.Core.List.{reverse, reverse-reverse}
use guidance_for_building_a.Common.Int64.{IsInt64}
use guidance_for_building_a.Id.{ItemId, len}
use guidance_for_building_a.Database.Bytes.{put_uint64, uint64, to_bytes, uint64-put_uint64}

-- `cipher.Block` for the default key.
pub record Cipher : Type 0 where
  pub encrypt : List ℕ → List ℕ
  pub decrypt : List ℕ → List ℕ

-- AES is a permutation of the blocks of 16 bytes.
pub record IsAes (c : Cipher) : Type 0 where
  pub length_encrypt : (b : List ℕ) → length b ≡ 16 → length (c.encrypt b) ≡ 16
  pub decrypt_encrypt : (b : List ℕ) → length b ≡ 16 → c.decrypt (c.encrypt b) ≡ b

-- `binary.BigEndian`: the bytes of `LittleEndian` in reverse.
unfoldable pub put_uint64_big : ℕ → List ℕ
put_uint64_big n = reverse (put_uint64 n)

unfoldable pub uint64_big : List ℕ → Option ℕ
uint64_big b = uint64 (reverse (take 8 b))

-- What `Encrypt` hands to the cipher: the number in the last 8 of 16 bytes.
unfoldable pub block_of : ℕ → List ℕ
block_of id = replicate 8 0 ++ put_uint64_big id

-- `Encrypt`
unfoldable pub encrypt : Cipher → ℕ → ItemId
encrypt c id = c.encrypt (block_of id)

-- `Decrypt`
unfoldable pub decrypt : Cipher → ItemId → Option ℕ
decrypt c encrypted = uint64_big (drop 8 (c.decrypt encrypted))

-- The encryptor of the load generator, which reuses its buffers.
pub record Encryptor : Type 0 where
  pub zero_buffer : List ℕ
  pub text_buffer : List ℕ
  pub encrypted_buffer : List ℕ

-- `NewDefaultEncryptor`
unfoldable pub new_default_encryptor : Encryptor
new_default_encryptor = record {
  zero_buffer = replicate 16 0;
  text_buffer = replicate 16 0;
  encrypted_buffer = replicate 16 0;
}

-- `Encrypt`; the result is the buffer that it returns.
unfoldable pub encrypt_in_place : Cipher → Encryptor → ℕ → Encryptor × List ℕ
encrypt_in_place c e id =
    let text = copy e.text_buffer e.zero_buffer in
    let encrypted = copy e.encrypted_buffer e.zero_buffer in
    let text' = take 8 text ++ copy (drop 8 text) (put_uint64_big id) in
    let encrypted' = copy encrypted (c.encrypt text') in
    (record e { text_buffer = text'; encrypted_buffer = encrypted' }, encrypted')

pub record IsReady (e : Encryptor) : Type 0 where
  pub zeros : e.zero_buffer ≡ replicate 16 0
  pub text_length : length e.text_buffer ≡ 16
  pub encrypted_length : length e.encrypted_buffer ≡ 16

length-put_uint64_big : (n : ℕ) → length (put_uint64_big n) ≡ 8
unfolding put_uint64_big put_uint64 to_bytes
length-put_uint64_big n = refl

length-block_of : (id : ℕ) → length (block_of id) ≡ 16
unfolding block_of
length-block_of id = omega (arith, length-put_uint64_big id)

uint64_big-put_uint64_big : (n : ℕ) → IsInt64 n → uint64_big (put_uint64_big n) ≡ some n
unfolding uint64_big
uint64_big-put_uint64_big n h =
    let whole : take 8 (put_uint64_big n) ≡ put_uint64_big n =
      ap (take 8) (sym (append-nil (put_uint64_big n)))
      ∙ take-append (put_uint64_big n) [] 8 (length-put_uint64_big n) in
    rw whole (
      unfold put_uint64_big in
      ap uint64 (reverse-reverse (put_uint64 n) ∙ sym (append-nil (put_uint64 n)))
      ∙ uint64-put_uint64 n [] h)

module _ (c : Cipher) (h : IsAes c) where
  pub length-encrypt : (id : ℕ) → length (encrypt c id) ≡ len
  unfolding encrypt
  length-encrypt id = h.length_encrypt (block_of id) (length-block_of id)

  pub decrypt-encrypt : (id : ℕ) → IsInt64 id → decrypt c (encrypt c id) ≡ some id
  unfolding encrypt decrypt
  decrypt-encrypt id w = rw (h.decrypt_encrypt (block_of id) (length-block_of id)) (
      unfold block_of in
      ap uint64_big (drop-append (replicate 8 0) (put_uint64_big id) 8 refl)
      ∙ uint64_big-put_uint64_big id w)

  -- Two numbers with the same key are the same.
  pub encrypt_inj : (a b : ℕ) → IsInt64 a → IsInt64 b → encrypt c a ≡ encrypt c b → a ≡ b
  encrypt_inj a b ha hb e = cc (decrypt-encrypt a ha, decrypt-encrypt b hb, ap (decrypt c) e)

  -- Whatever its buffers hold, the load generator's encryptor gives the key that the data generator
  -- gives, and it is ready again.
  pub encrypt_in_place-encrypt :
      (e : Encryptor) (id : ℕ)
      → IsReady e
      → ((encrypt_in_place c e id).1 ≡ encrypt c id) × IsReady (encrypt_in_place c e id).0
  unfolding encrypt_in_place
  encrypt_in_place-encrypt e id r =
      let text : copy e.text_buffer e.zero_buffer ≡ replicate 16 0 =
        copy_full e.text_buffer e.zero_buffer (omega (arith, r.text_length, ap length r.zeros))
        ∙ r.zeros in
      let written : copy (replicate 8 0) (put_uint64_big id) ≡ put_uint64_big id =
        copy_full (replicate 8 0) (put_uint64_big id) (omega (arith, length-put_uint64_big id)) in
      let block : take 8 (copy e.text_buffer e.zero_buffer)
            ++ copy (drop 8 (copy e.text_buffer e.zero_buffer)) (put_uint64_big id)
          ≡ block_of id =
        ap (λ t. take 8 t ++ copy (drop 8 t) (put_uint64_big id)) text
        ∙ (unfold block_of in ap (◌++◌ (replicate 8 0)) written) in
      let full = length-copy e.encrypted_buffer e.zero_buffer in
      let result : copy (copy e.encrypted_buffer e.zero_buffer) (c.encrypt (block_of id))
          ≡ encrypt c id =
        copy_full (copy e.encrypted_buffer e.zero_buffer) (c.encrypt (block_of id)) (
          omega
            (arith, full, r.encrypted_length, h.length_encrypt (block_of id) (length-block_of id)))
        ∙ (unfold encrypt in refl) in
      let result' =
        ap (λ b. copy (copy e.encrypted_buffer e.zero_buffer) (c.encrypt b)) block ∙ result in
      (
        result',
        record {
          zeros = r.zeros;
          text_length = ap length block ∙ length-block_of id;
          encrypted_length = ap length result' ∙ length-encrypt id;
        },
      )
