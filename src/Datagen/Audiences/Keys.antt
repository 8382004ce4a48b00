-- ===== src/Datagen/Audiences/Keys.antt =====
-- The keys of a device's audiences: how many, that none comes twice, and that both functions give
-- the same.
use guidance_for_building_a.Common.{
  ℕ, zero, suc, ◌+◌, ◌-◌, ◌^◌, ◌%◌, ◌≤◌, ◌<◌, ◌≡◌, refl, ap, sym, ◌∙◌, List, [], ◌∷◌, ◌++◌, some,
  false, leb, Bool-cases, inl, inr, ◌==◌, length, get_elem?, All, append_assoc, append-nil, arith,
}
use guidance_for_building_a.Common.Int64.{add64, sub64, u64_mod}
use guidance_for_building_a.Id.{ItemId, len}
use guidance_for_building_a.Database.Devices.{concat}
use guidance_for_building_a.Datagen.Config.{Config}
use guidance_for_building_a.Datagen.Encryptor.{Cipher, IsAes, encrypt, length-encrypt, encrypt_inj}
use guidance_for_building_a.Datagen.Audiences.{
  modulo, audience_count, audience_number, concat_from, audiences_concat, slice_from,
  audiences_slice,
}

-- Audiences of a configuration that `Resolve` gives for bounds that are not negative.
pub record IsBounded (cfg : Config) : Type 0 where
  pub le : cfg.min_audiences ≤ cfg.max_audiences
  pub small : cfg.max_audiences < 2 ^ 63
  pub enough : cfg.max_audiences ≤ cfg.max_audience_id
  pub pos : 0 < cfg.max_audience_id
  pub word : cfg.max_audience_id < u64_mod

-- The audiences that a key is to have: the identifiers of numbers from 1 to `MaxAudienceID`, that
-- follow the remainder of the key and start again at 1 after the last.
abbrev pub given_from : Cipher → Config → ℕ → ℕ → ℕ → List ItemId
given_from c cfg key zero i = []
given_from c cfg key (suc n) i =
    encrypt c ((key + i) % cfg.max_audience_id + 1) ∷ given_from c cfg key n (i + 1)

-- Their number runs through the range of the configuration with the key.
abbrev pub given : Cipher → Config → ℕ → List ItemId
given c cfg key =
    given_from c cfg key (key % (cfg.max_audiences - cfg.min_audiences + 1) + cfg.min_audiences) 0

mod-lt : (a m : ℕ) → 0 < m → a % m < m
mod-lt a m h = grind arith

-- Numbers less than `m` apart have different remainders.
mod_apart : (s i j m : ℕ) → i ≤ j → j < i + m → (s + i) % m ≡ (s + j) % m → i ≡ j
mod_apart s i j m le lt e = grind arith

-- No list of keys repeats one.
pub NoRepeat : List ItemId → Type 0
NoRepeat is = (i j : ℕ) (k : ItemId) → get_elem? is i ≡ some k → get_elem? is j ≡ some k → i ≡ j

module _ (cfg : Config) (b : IsBounded cfg) (seed : ℕ) where
  pub audience_count_bounds :
      (n : ℕ) × (audience_count cfg seed ≡ some n)
      × (cfg.min_audiences ≤ n)
      × (n ≤ cfg.max_audiences)
      × (n ≡ seed % (cfg.max_audiences - cfg.min_audiences + 1) + cfg.min_audiences)
  unfolding audience_count modulo add64 sub64
  audience_count_bounds =
      let d : ℕ = cfg.max_audiences - cfg.min_audiences + 1 in
      let r = mod-lt seed d (omega arith) in
      let same : ((cfg.max_audiences + u64_mod - cfg.min_audiences) % u64_mod + 1) % u64_mod ≡ d =
        omega (arith, b.le, b.small) in
      let nonzero : (d == 0) ≡ false = ground arith in
      (
        seed % d + cfg.min_audiences,
        rw (same, nonzero) (ap some (omega (arith, r, b.le, b.small))),
        omega (arith, r),
        omega (arith, r, b.le),
        refl,
      )

  number : ℕ → ℕ
  number i = (seed + i) % cfg.max_audience_id + 1

  number_lt : (i : ℕ) → (number i < u64_mod + 1) × (0 < number i) × (number i ≤ cfg.max_audience_id)
  unfolding number
  number_lt i =
      let r = mod-lt (seed + i) cfg.max_audience_id b.pos in
      (omega (arith, r, b.word), omega arith, omega (arith, r))

  audience_number_lem : (i : ℕ) → seed + i < u64_mod → audience_number cfg seed i ≡ some (number i)
  unfolding audience_number modulo add64 number
  audience_number_lem i h =
      let small : (seed + i) % u64_mod ≡ seed + i = omega arith in
      let nonzero : (cfg.max_audience_id == 0) ≡ false = ground (arith, b.pos) in
      let r = mod-lt (seed + i) cfg.max_audience_id b.pos in
      rw (small, nonzero) (ap some (omega (arith, r, b.word)))

  module _ (c : Cipher) where
    -- The keys of the rounds from `i` on.
    keys_from : ℕ → ℕ → List ItemId
    keys_from zero i = []
    keys_from (suc n) i = encrypt c (number i) ∷ keys_from n (i + 1)

    keys_from-given_from : (n i : ℕ) → keys_from n i ≡ given_from c cfg seed n i
    unfolding keys_from number
    keys_from-given_from zero i = refl
    keys_from-given_from (suc n) i =
        ap (◌∷◌ (encrypt c (number i))) (keys_from-given_from n (i + 1))

    length-keys_from : (n i : ℕ) → length (keys_from n i) ≡ n
    unfolding keys_from
    length-keys_from zero i = refl
    length-keys_from (suc n) i = ap suc (length-keys_from n (i + 1))

    slice_from-keys_from :
        (n i : ℕ) → seed + (i + n) ≤ u64_mod → slice_from c cfg seed n i ≡ some (keys_from n i)
    unfolding slice_from keys_from
    slice_from-keys_from zero i h = refl
    slice_from-keys_from (suc n) i h =
        rw (audience_number_lem i (omega arith), slice_from-keys_from n (i + 1) (omega arith)) refl

    concat_from-keys_from :
        (n i : ℕ) (a : List ℕ)
        → seed + (i + n) ≤ u64_mod
        → concat_from c cfg seed n i a ≡ some (a ++ concat (keys_from n i))
    unfolding concat_from keys_from
    concat_from-keys_from zero i a h = ap some (sym (append-nil a))
    concat_from-keys_from (suc n) i a h = rw (audience_number_lem i (omega arith)) (
        concat_from-keys_from n (i + 1) (a ++ encrypt c (number i)) (omega arith)
        ∙ ap some (append_assoc a (encrypt c (number i)) (concat (keys_from n (i + 1)))))

    get_elem?-keys_from :
        (n i j : ℕ) {k : ItemId}
        → get_elem? (keys_from n i) j ≡ some k
        → (j < n) × (k ≡ encrypt c (number (i + j)))
    unfolding keys_from
    get_elem?-keys_from zero i j e = cc e
    get_elem?-keys_from (suc n) i zero {k} e =
        let same : i + 0 ≡ i = omega arith in (omega arith, rw same (cc e))
    get_elem?-keys_from (suc n) i (suc j) {k} e =
        let (lt, key) = get_elem?-keys_from n (i + 1) j e in
        let same : i + suc j ≡ i + 1 + j = omega arith in (omega (arith, lt), rw same key)

    module _ (h : IsAes c) where
      keys_from-length : (n i : ℕ) → All (λ (k : ItemId). length k ≡ len) (keys_from n i)
      unfolding keys_from
      keys_from-length zero i = tt
      keys_from-length (suc n) i = (length-encrypt c h (number i), keys_from-length n (i + 1))

      number_inj : (i j : ℕ) → i ≤ j → j < cfg.max_audience_id → number i ≡ number j → i ≡ j
      unfolding number
      number_inj i j le lt e =
          mod_apart seed i j cfg.max_audience_id le (omega arith) (omega (arith, e))

      keys_from-NoRepeat : (n : ℕ) → n ≤ cfg.max_audience_id → NoRepeat (keys_from n 0)
      unfolding NoRepeat
      keys_from-NoRepeat n few i j k ei ej =
          let at_zero : (t : ℕ) → encrypt c (number (0 + t)) ≡ encrypt c (number t) =
            λ t. ap (λ x. encrypt c (number x)) (omega arith) in
          let (li, ki) = get_elem?-keys_from n 0 i ei in
          let (lj, kj) = get_elem?-keys_from n 0 j ej in
          let wi = number_lt i in
          let wj = number_lt j in
          let same : number i ≡ number j =
            encrypt_inj c h (number i) (number j) (omega (arith, wi, b.word))
              (omega (arith, wj, b.word)) (sym (ki ∙ at_zero i) ∙ kj ∙ at_zero j) in
          elim (Bool-cases (leb i j)) [
            | inl le ↦ number_inj i j (ground arith) (omega (arith, lj)) same
            | inr gt ↦ sym (number_inj j i (ground arith) (omega (arith, li)) (sym same))
          ]

      -- Both functions give the same keys, one behind the other or as a list: between `MinAudiences`
      -- and `MaxAudiences` of them, none twice, those that the key is to have.
      pub audiences_lem :
          seed + cfg.max_audiences ≤ u64_mod
          → (is : List ItemId) × (audiences_slice c cfg seed ≡ some is)
            × (audiences_concat c cfg seed ≡ some (concat is))
            × All (λ (k : ItemId). length k ≡ len) is
            × (cfg.min_audiences ≤ length is)
            × (length is ≤ cfg.max_audiences)
            × NoRepeat is
            × (is ≡ given c cfg seed)
      unfolding audiences_slice audiences_concat
      audiences_lem fits =
          let (n, count, low, high, exact) = audience_count_bounds in
          let size = length-keys_from n 0 in
          (
            keys_from n 0,
            rw count (slice_from-keys_from n 0 (omega (arith, high))),
            rw count (concat_from-keys_from n 0 [] (omega (arith, high))),
            keys_from-length n 0,
            omega (arith, size, low),
            omega (arith, size, high),
            keys_from-NoRepeat n (omega (arith, high, b.enough)),
            keys_from-given_from n 0 ∙ ap (λ k. given_from c cfg seed k 0) exact,
          )
