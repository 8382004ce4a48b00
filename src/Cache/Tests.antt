-- ===== src/Cache/Tests.antt =====
-- The caches of a small database: a campaign that comes twice, and one without a MaxCPM.
use guidance_for_building_a.Common.{
  ℕ, zero, suc, ◌<◌, ◌%◌, ◌≡◌, refl, [], ◌∷◌, true, false, not, ◌==◌, none, some, replicate, arith,
}
use guidance_for_building_a.Common.Int64.{u64_mod}
use guidance_for_building_a.Id.{lookup, insert, same}
use guidance_for_building_a.Api.{Audience, Budget, Campaign, Validation, is_valid, Scan, ok}
use guidance_for_building_a.Cache.Campaigns
use guidance_for_building_a.Cache.Campaigns.{CampaignCache, get_index, size, new_campaign}
use guidance_for_building_a.Cache.Campaigns.Index.{
  IsIndexed, new_campaign-IsIndexed, new_campaign_finds,
}
use guidance_for_building_a.Cache.Audiences
use guidance_for_building_a.Cache.Audiences.{AudienceCache, new_audience, campaign_indices}
use guidance_for_building_a.Cache.Audiences.Targets.{NamedBy, latest, new_audience-get}
use guidance_for_building_a.Cache.Budgets.{BudgetState, scan_state}
use guidance_for_building_a.Cache.Budgets.State.{funds, IsState, deposits, scan_state-deposits}
use guidance_for_building_a.Cache.Budgets.Update.{
  Updater, Reach, IsConsistent, start, async_update, request, install, clear, done, stop_loop,
  close, here, next, Reach-IsConsistent,
}

abbrev validation : Validation
validation = record { required_id = λ i. true; required_int64 = λ n. not (n == 0) }

abbrev first : Campaign
first = record { hex_id = []; id = replicate 16 1; max_cpm = 100 }

abbrev free_of_charge : Campaign
free_of_charge = record { hex_id = []; id = replicate 16 2; max_cpm = 0 }

abbrev again : Campaign
again = record { hex_id = []; id = replicate 16 1; max_cpm = 200 }

abbrev campaigns : Scan Campaign
campaigns = record { items = first ∷ free_of_charge ∷ again ∷ []; error = none }

abbrev cached : CampaignCache
cached = record { campaigns = first ∷ again ∷ []; id_to_index = (replicate 16 1, 1) ∷ [] }

new_campaign-cached : new_campaign validation campaigns ≡ ok cached
unfolding new_campaign Campaigns.consume_all Campaigns.consume is_valid insert same
new_campaign-cached = refl

good : is_valid validation again ≡ true
unfolding is_valid
good = refl

cached-IsIndexed : IsIndexed validation cached
cached-IsIndexed = new_campaign-IsIndexed validation campaigns cached new_campaign-cached

new_campaign_finds_example :
    (n : ℕ) × (k : Campaign) × (get_index cached again.id ≡ some n)
    × (Campaigns.get cached n ≡ some k)
    × (k.id ≡ again.id)
    × (is_valid validation k ≡ true)
new_campaign_finds_example =
    new_campaign_finds validation campaigns cached (first ∷ free_of_charge ∷ []) again []
      new_campaign-cached refl good

abbrev audience : Audience
audience = record { audience_id = replicate 16 3; campaign_ids = free_of_charge.id ∷ again.id ∷ [] }

abbrev audiences : Scan Audience
audiences = record { items = audience ∷ []; error = none }

abbrev heard : AudienceCache
heard = record { entries = (replicate 16 3, 1 ∷ []) ∷ [] }

new_audience-heard : new_audience audiences cached ≡ ok heard
unfolding new_audience Audiences.consume_all Audiences.consume campaign_indices get_index lookup
    insert same
new_audience-heard = refl

new_audience-get_example :
    NamedBy cached (latest (replicate 16 3) (audience ∷ [])) (Audiences.get heard (replicate 16 3))
new_audience-get_example =
    new_audience-get validation campaigns cached new_campaign-cached audiences heard
      (replicate 16 3) new_audience-heard

abbrev budgets : Scan Budget
budgets = record {
  items =
      record { campaign_id = again.id; available = 40 }
      ∷ record { campaign_id = free_of_charge.id; available = 9 }
      ∷ record { campaign_id = again.id; available = 2 }
      ∷ [];
  error = none;
}

scan_state-deposits_example :
    (b : BudgetState) × (scan_state cached budgets ≡ some (ok b))
    × IsState (size cached) b
    × ((i : ℕ) → funds b i ≡ deposits cached i budgets.items % u64_mod)
scan_state-deposits_example = scan_state-deposits validation cached cached-IsIndexed budgets refl

abbrev before : BudgetState
before = record { available = 5 ∷ [] }

abbrev after : BudgetState
after = record { available = 8 ∷ [] }

one_amount : (a : ℕ) → a < 100 → IsState 1 (record { available = a ∷ [] })
unfolding funds
one_amount a h = record { sized = refl; words = w }
  where
    w : (i : ℕ) → funds (record { available = a ∷ [] }) i < u64_mod
    w zero = omega arith
    w (suc i) = omega arith

abbrev stopped : Updater
stopped = record {
  state = after;
  update_in_progress = false;
  scanning = 0;
  finishing = 0;
  cleared = 0;
  update_wg = 0;
  looping = false;
  closed = true;
}

-- A request, a scan, and the stop.
history : Reach (IsState 1) (start before) stopped
unfolding start async_update
history =
    let b1 = async_update (start before) in
    let b2 : Updater = record b1 { state = after; scanning = 0; finishing = 1 } in
    let b3 : Updater = record b2 { update_in_progress = false; finishing = 0; cleared = 1 } in
    let b4 : Updater = record b3 { cleared = 0; update_wg = 1 } in
    let b5 : Updater = record b4 { looping = false; update_wg = 0 } in
    next
      (next
        (next
          (next
            (next (next here (request (start before) refl))
              (install b1 0 after refl (one_amount 8 (omega arith))))
            (clear b2 0 refl))
          (done b3 0 refl))
        (stop_loop b4 refl))
      (close b5 refl refl refl)

Reach-IsConsistent_example : IsConsistent 1 stopped
Reach-IsConsistent_example = Reach-IsConsistent 1 (one_amount 5 (omega arith)) history
