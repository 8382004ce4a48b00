-- ===== src/Cache/Devices.antt =====
-- apps/bidder/code/cache/device.go: the audiences of a device, from the database or made up.
pub mod Stub
use guidance_for_building_a.Common.{
  ℕ, zero, suc, List, [], ◌∷◌, ◌++◌, Bool, Option, none, some, map, length, get_elem?,
  if◌then◌else◌, ◌>>=◌,
}
use guidance_for_building_a.Id.{ItemId, zero_id, same}
use guidance_for_building_a.Api.{Error, item_not_found}
use guidance_for_building_a.Random.{Random}
use guidance_for_building_a.Cache.Audiences.{AudienceCache, get_all}

-- `DeviceRepository.Get` appends to the audiences of the result, and may fail.
abbrev pub Query : Type 0
Query = ItemId → List ItemId → List ItemId × Option Error

-- `Device`, with the generators in its pool.
pub record DeviceCache (r : Random) : Type 0 where
  pub query : Query
  pub audiences : List ItemId
  pub device_query_disable : Bool
  pub rng_pool : List r.Rng

-- The keys of the cached audiences, in the order in which the map gives them.
unfoldable pub new_device : (r : Random) → Bool → Query → AudienceCache → DeviceCache r
new_device r device_query_disable query audiences = record {
  query = query;
  audiences = if device_query_disable then map (λ p. p.0) (get_all audiences) else [];
  device_query_disable = device_query_disable;
  rng_pool = [];
}

module _ (r : Random) where
  -- `for i := 0; i < audienceNumber; i++`; `none` is the panic of an index out of range.
  unfoldable pub append_random :
      ℕ → r.Rng → List ItemId → List ItemId → Option (List ItemId × r.Rng)
  append_random zero g audiences result = some (result, g)
  append_random (suc n) g audiences result = do
    let (i, g') = r.intn g (length audiences)
    a ← get_elem? audiences i
    append_random n g' audiences (result ++ a ∷ [])

  abbrev pub audience_number : ℕ
  audience_number = 5

  get_rng : List r.Rng → r.Rng × List r.Rng
  get_rng [] = (r.new_rng, [])
  get_rng (g ∷ pool) = (g, pool)

  -- `getStub` once it has a generator.
  unfoldable pub get_random :
      DeviceCache r → List ItemId → r.Rng → List r.Rng → Option (List ItemId × DeviceCache r)
  get_random c result g pool =
      let (no_bid, g') = r.float64_below g in
      if no_bid then some (result, record c { rng_pool = g' ∷ pool }) else do
        (ids, g'') ← append_random audience_number g' c.audiences result
        some (ids, record c { rng_pool = g'' ∷ pool })

  -- `getStub`, without its delay.
  unfoldable pub get_stub : DeviceCache r → List ItemId → Option (List ItemId × DeviceCache r)
  unfolding get_rng
  get_stub c result = elim c.audiences [
    | [] ↦ some (result, c)
    | _ ∷ _ ↦ let (g, pool) = get_rng c.rng_pool in get_random c result g pool
  ]

  -- `Get`: the audiences of the result and the error.
  unfoldable pub get :
      DeviceCache r → ItemId → List ItemId → Option (List ItemId × Option Error × DeviceCache r)
  get c device_id result =
      if same device_id zero_id
      then some (result, some item_not_found, c)
      else if c.device_query_disable
      then (do (ids, c') ← get_stub c result; some (ids, none, c'))
      else (let (ids, e) = c.query device_id result in some (ids, e, c))
