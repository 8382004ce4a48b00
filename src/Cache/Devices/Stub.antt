-- ===== src/Cache/Devices/Stub.antt =====
-- The device that benchmarks make up.
use guidance_for_building_a.Common.{
  ℕ, zero, suc, ◌<◌, ◌≡◌, ◌⊎◌, inl, inr, refl, ap, List, [], ◌∷◌, ◌++◌, true, false, none, some,
  All, length, get_elem?, get_elem?-some, append_assoc, append-nil, Bool-cases, Option, arith,
}
use guidance_for_building_a.Id.{ItemId, zero_id, same}
use guidance_for_building_a.Api.{Error, item_not_found}
use guidance_for_building_a.Random.{Random, IsBounded}
use guidance_for_building_a.Cache.Devices.{
  DeviceCache, append_random, get_random, get_rng, get_stub, get,
}

-- Each of these is one of the audiences.
abbrev pub AllFrom : List ItemId → List ItemId → Type 0
AllFrom audiences = All λ a. (i : ℕ) × (get_elem? audiences i ≡ some a)

module _ (r : Random) (bounded : IsBounded r) where
  append_random_lem :
      (n : ℕ) (g : r.Rng) (audiences result : List ItemId)
      → 0 < length audiences
      → (added : List ItemId) × (g' : r.Rng) × (append_random r n g audiences result
          ≡ some (result ++ added, g'))
        × (length added ≡ n)
        × AllFrom audiences added
  unfolding append_random
  append_random_lem zero g audiences result h = ([], g, rw (append-nil result), refl, tt)
  append_random_lem (suc n) g audiences result h =
      let i = (r.intn g (length audiences)).0 in
      let g' = (r.intn g (length audiences)).1 in
      let (a, e) = get_elem?-some audiences i (bounded.intn_lt g (length audiences) h) in
      let (added, g'', f, len, from) = append_random_lem n g' audiences (result ++ a ∷ []) h in
      (
        a ∷ added,
        g'',
        rw (e, append_random) (rw (← append_assoc result (a ∷ []) added) f),
        ap suc len,
        ((i, e), from),
      )

  get_random_lem :
      (c : DeviceCache r) (result : List ItemId) (g : r.Rng) (pool : List r.Rng)
      → 0 < length c.audiences
      → (added : List ItemId) × (c' : DeviceCache r) × (get_random r c result g pool
          ≡ some (result ++ added, c'))
        × ((length added ≡ 0) ⊎ (length added ≡ 5))
        × AllFrom c.audiences added
  unfolding get_random
  get_random_lem c result g pool h =
      let (added, g'', f, len, from) =
        append_random_lem 5 (r.float64_below g).1 c.audiences result h in
      elim (Bool-cases (r.float64_below g).0) [
        | inl e ↦ (
          [],
          record c { rng_pool = (r.float64_below g).1 ∷ pool },
          ground (arith, append-nil result),
          inl refl,
          tt,
        )
        | inr e ↦ (added, record c { rng_pool = g'' ∷ pool }, ground (arith, f), inr len, from)
      ]

  get_stub_lem :
      (c : DeviceCache r) (result : List ItemId)
      → (added : List ItemId) × (c' : DeviceCache r) × (get_stub r c result
          ≡ some (result ++ added, c'))
        × ((length added ≡ 0) ⊎ (length added ≡ 5))
        × AllFrom c.audiences added
  unfolding get_stub
  get_stub_lem c result = go c.audiences refl
    where
      go :
          (ids : List ItemId)
          → c.audiences ≡ ids
          → (added : List ItemId) × (c' : DeviceCache r) × (get_stub r c result
              ≡ some (result ++ added, c'))
            × ((length added ≡ 0) ⊎ (length added ≡ 5))
            × AllFrom c.audiences added
      go [] e = ([], c, ground (arith, append-nil result), inl refl, tt)
      go (a ∷ rest) e =
          let (g, pool) = get_rng r c.rng_pool in
          let (added, c', f, len, from) =
            get_random_lem c result g pool (omega (arith, ap length e)) in
          (added, c', ground (arith, f), len, from)

  -- Where queries are disabled, a device that has an identifier never panics and never fails: it
  -- gets the audiences that the result had, and either none or five more, all of them cached.
  pub get_disabled :
      (c : DeviceCache r) (device_id : ItemId) (result : List ItemId)
      → c.device_query_disable ≡ true
      → same device_id zero_id ≡ false
      → (added : List ItemId) × (c' : DeviceCache r) × (get r c device_id result
          ≡ some (result ++ added, none, c'))
        × ((length added ≡ 0) ⊎ (length added ≡ 5))
        × AllFrom c.audiences added
  unfolding get
  get_disabled c device_id result disabled real =
      let (added, c', f, len, from) = get_stub_lem c result in
      (added, c', ground (arith, f), len, from)

  -- Whatever the configuration, `Get` does not panic.
  pub get_total :
      (c : DeviceCache r) (device_id : ItemId) (result : List ItemId)
      → (ids : List ItemId) × (e : Option Error) × (c' : DeviceCache r) × (get r c device_id result
          ≡ some (ids, e, c'))
  unfolding get
  get_total c device_id result = elim (Bool-cases (same device_id zero_id)) [
    | inl zero_ ↦ (result, some item_not_found, c, rw zero_ refl)
    | inr real ↦ elim (Bool-cases c.device_query_disable) [
      | inl off ↦
          let (added, c', f, len, from) = get_disabled c device_id result off real in
          (result ++ added, none, c', f)
      | inr on ↦ let (ids, e) = c.query device_id result in (ids, e, c, ground (arith, real, on))
    ]
  ]
