-- ===== src/Auction/Run/Outcome.antt =====
-- What `Run` answers, on every branch.
use guidance_for_building_a.Common.{
  ℕ, ◌+◌, ◌<◌, ◌≡◌, refl, List, [], ◌∷◌, Option, none, some, get_elem?,
}
use guidance_for_building_a.Common.Int64.{u64_mod}
use guidance_for_building_a.Id.{ItemId}
use guidance_for_building_a.Api.{Error, item_not_found, timeout, bad_response_format, other}
use guidance_for_building_a.Random.{Random, IsBounded}
use guidance_for_building_a.Cache.Devices
use guidance_for_building_a.Cache.Devices.{DeviceCache}
use guidance_for_building_a.Cache.Devices.Stub.{get_total}
use guidance_for_building_a.Auction.Candidates.Unique.{IsTable-suc}
use guidance_for_building_a.Auction.Run.{
  Auction, PersistentData, Request, Item, Answer, no_bid, failed, get_data, get_device,
  device_error, check_timeout, run, run_auction,
}
use guidance_for_building_a.Auction.Run.Spec.{IsReady, Answers, unknown, late, broken}
use guidance_for_building_a.Auction.Run.Campaigns.{run_audiences_outcome}

module _ (r : Random) (bounded : IsBounded r) where
  run_outcome :
      (n : ℕ) (a : Auction r) (request : Request) (item : Item) (pd : PersistentData r)
      → IsReady r n a
      → n + 1 < u64_mod
      → get_elem? request.item 0 ≡ some item
      → (ids : List ItemId) × (e : Option Error) × (device' : DeviceCache r) × (Devices.get r
            a.device request.device_id []
          ≡ some (ids, e, device'))
        × (answer : Answer) × (a' : Auction r) × (pd' : PersistentData r) × (run r a request pd
            ≡ some (answer, a', pd'))
        × Answers r a request ids e (check_timeout answer) a'
        × IsReady r (n + 1) a'
  unfolding run get_device device_error check_timeout
  run_outcome n a request item pd ready small first =
      let (ids, e, device', f) = get_total r bounded a.device request.device_id [] in
      let (answer, a', pd', g, out, ready') = go ids e device' f in
      (ids, e, device', f, answer, a', pd', g, out, ready')
    where
      queried : (device' : DeviceCache r) → IsReady r n (record a { device = device' })
      queried device' = record {
        targets = ready.targets;
        budgets = ready.budgets;
        words = ready.words;
        tables = ready.tables;
      }

      again : (device' : DeviceCache r) → IsReady r (n + 1) (record a { device = device' })
      again device' = record {
        targets = ready.targets;
        budgets = ready.budgets;
        words = ready.words;
        tables = IsTable-suc n a.campaign_lookup_pool ready.tables;
      }

      go :
          (ids : List ItemId) (e : Option Error) (device' : DeviceCache r)
          → Devices.get r a.device request.device_id [] ≡ some (ids, e, device')
          → (answer : Answer) × (a' : Auction r) × (pd' : PersistentData r) × (run r a request pd
              ≡ some (answer, a', pd'))
            × Answers r a request ids e (check_timeout answer) a'
            × IsReady r (n + 1) a'
      go ids (some item_not_found) device' f = (
        no_bid,
        record a { device = device' },
        record pd { device = ids },
        rw f refl,
        unknown,
        again device',
      )
      go ids (some timeout) device' f = (
        failed timeout,
        record a { device = device' },
        record pd { device = ids },
        rw f refl,
        late,
        again device',
      )
      go ids (some bad_response_format) device' f = (
        failed bad_response_format,
        record a { device = device' },
        record pd { device = ids },
        rw f refl,
        broken bad_response_format (λ e. cc e) (λ e. cc e),
        again device',
      )
      go ids (some (other m)) device' f = (
        failed (other m),
        record a { device = device' },
        record pd { device = ids },
        rw f refl,
        broken (other m) (λ e. cc e) (λ e. cc e),
        again device',
      )
      go ids none device' f =
          let (answer, a', pd', g, out, ready') =
            run_audiences_outcome r bounded n (record a { device = device' }) request item
              (record pd { device = ids }) (queried device') small first in
          (answer, a', pd', rw f g, out, ready')

  -- If the auction is ready after `n` runs, `n + 1` is below 2 ^ 64 and the request has an item,
  -- `Run` does not panic and is ready for the next run. Its answer is: no bid for an unknown
  -- device; a timeout, or the error of the device query; no bid where no campaign targets the
  -- device; no bid and one request for a budget update where no target has budget left and a
  -- MaxCPM of at least zero; and otherwise a response for the first item with a target of the
  -- highest MaxCPM among those with budget left, at that price. Only the winner's budget changes,
  -- by its MaxCPM.
  pub run_auction_outcome :
      (n : ℕ) (a : Auction r) (request : Request) (item : Item)
      → IsReady r n a
      → n + 1 < u64_mod
      → get_elem? request.item 0 ≡ some item
      → (ids : List ItemId) × (e : Option Error) × (device' : DeviceCache r) × (Devices.get r
            a.device request.device_id []
          ≡ some (ids, e, device'))
        × (answer : Answer) × (a' : Auction r) × (run_auction r a request ≡ some (answer, a'))
        × Answers r a request ids e answer a'
        × IsReady r (n + 1) a'
  unfolding run_auction
  run_auction_outcome n a request item ready small first =
      let (pd, pool') = get_data r a.pool in
      let a1 : Auction r = record a { pool = pool' } in
      let ready1 : IsReady r n a1 = record {
        targets = ready.targets;
        budgets = ready.budgets;
        words = ready.words;
        tables = ready.tables;
      } in
      let (ids, e, device', f, answer, a', pd', g, out, ready') =
        run_outcome n a1 request item pd ready1 small first in
      (
        ids,
        e,
        device',
        f,
        check_timeout answer,
        record a' { pool = pd' ∷ a'.pool },
        rw g refl,
        out,
        record {
          targets = ready'.targets;
          budgets = ready'.budgets;
          words = ready'.words;
          tables = ready'.tables;
        },
      )
