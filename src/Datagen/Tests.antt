-- ===== src/Datagen/Tests.antt =====
-- Concrete inputs for the theorems about the data generator.
use guidance_for_building_a.Common.{
  ℕ, ◌-◌, ◌*◌, ◌^◌, ◌%◌, ◌<◌, ◌≡◌, refl, List, [], ◌∷◌, ◌++◌, none, some, All, arith,
}
use mathlib.Core.List.{Perm}
use mathlib.Core.List.Perm
use guidance_for_building_a.Id.{lookup, same}
use guidance_for_building_a.Id.Hex.{encode_to_string}
use guidance_for_building_a.Api.{Budget}
use guidance_for_building_a.Database.Consumer.{Consumer, feed}
use guidance_for_building_a.Database.Scans.{scan_budgets, all_budgets}
use guidance_for_building_a.Datagen.Config.{Config, stdout, no_output}
use guidance_for_building_a.Datagen.Keys.{keys_between}
use guidance_for_building_a.Datagen.Encryptor.{Cipher, IsAes}
use guidance_for_building_a.Datagen.Records.{Device, device_generator, ReversedAudience}
use guidance_for_building_a.Datagen.Records.Stored.{Stored, device_generator-Stored}
use guidance_for_building_a.Datagen.Budgets.{budget_generator}
use guidance_for_building_a.Datagen.Budgets.Batches.{numbered, IsCut}
use guidance_for_building_a.Datagen.Budgets.Scanned.{bins, Funded, budget_generator-scans}
use guidance_for_building_a.Datagen.Index.{collect}
use guidance_for_building_a.Datagen.Index.Inverse.{targeting, record_of, lookup-collect-targeting}
use guidance_for_building_a.Datagen.Buffer.{
  Answer, unprocessed, cut, returned, flush_batch_from_buffer, flush_buffer, Connection, write,
  adds, flushes, Reach, here, next,
}
use guidance_for_building_a.Datagen.Buffer.Conserved.{IsBatch, Reach-conserved}
use guidance_for_building_a.Datagen.Buffer.Ends.{Progress, flush_buffer_ends}

-- A permutation of the blocks.
abbrev plain : Cipher
plain = record { encrypt = λ b. b; decrypt = λ b. b }

plain-IsAes : IsAes plain
plain-IsAes = record { length_encrypt = λ b h. h; decrypt_encrypt = λ b h. refl }

abbrev five_keys : Config
five_keys = record {
  output = stdout;
  key_low = 1;
  key_high = 5;
  min_audiences = 1;
  max_audiences = 3;
  max_audience_id = 7;
  dynamodb_concurrency = 1;
  budget_batch_size = 2;
  min_bid_price = 100;
  max_bid_price = 200;
  min_budget = 10;
  max_budget = 20;
}

abbrev sevens : ℕ → ℕ
sevens i = i * 7 % 100

abbrev collect_budgets : Consumer (List Budget) Budget
collect_budgets bs b = (bs ++ b ∷ [], none)

budget_generator-scans_example :
    (batches : List (List Budget)) × (budget_generator plain five_keys sevens 10
      ≡ some (numbered 1 batches))
    × IsCut 2 batches
    × Funded plain five_keys (keys_between 1 5) (all_budgets batches)
    × (scan_budgets collect_budgets [] (bins (numbered 1 batches))
        ≡ some (feed collect_budgets [] (all_budgets batches)))
budget_generator-scans_example =
    budget_generator-scans plain five_keys plain-IsAes (omega arith) sevens small collect_budgets []
      10 (omega arith) (omega arith) (omega arith)
  where
    small : (i : ℕ) → sevens i < 2 ^ 63
    small i = omega arith

device_generator-Stored_example :
    (ds : List Device) × (device_generator plain five_keys 10 ≡ some ds)
    × Stored plain five_keys (keys_between 1 5) ds
device_generator-Stored_example =
    device_generator-Stored plain five_keys plain-IsAes
      (record {
        le = omega arith;
        small = omega arith;
        enough = omega arith;
        pos = omega arith;
        word = omega arith;
      })
      10 (omega arith) (omega arith) (omega arith) (omega arith)

abbrev campaigns : List ReversedAudience
campaigns =
    record { campaign_id = 1 ∷ []; audience_ids = (8 ∷ []) ∷ (9 ∷ []) ∷ [] }
    ∷ record { campaign_id = 2 ∷ []; audience_ids = (9 ∷ []) ∷ [] }
    ∷ []

lookup-collect-targeting_example :
    lookup (encode_to_string (9 ∷ [])) (collect [] campaigns)
    ≡ record_of (9 ∷ []) (targeting (9 ∷ []) campaigns)
lookup-collect-targeting_example = lookup-collect-targeting (9 ∷ []) campaigns

abbrev negative_price : Config
negative_price = record five_keys {
  output = no_output;
  min_bid_price = 2 ^ 64 - 1;
  min_audiences = 9;
}

-- Two items, of which the first write returns one.
abbrev table : List ℕ
table = 1 ∷ 2 ∷ []

abbrev one_back : Answer ℕ
one_back = unprocessed ((table, 20 ∷ []) ∷ [])

abbrev half_written : Connection ℕ
half_written = record {
  put = 10 ∷ 20 ∷ [];
  buffer = 20 ∷ [];
  stored = 10 ∷ [];
  calls = (10 ∷ 20 ∷ []) ∷ [];
}

abbrev half_written_run :
    Reach table (record { put = []; buffer = []; stored = []; calls = [] }) half_written
unfolding flush_batch_from_buffer cut returned same
half_written_run =
    let c0 : Connection ℕ = record { put = []; buffer = []; stored = []; calls = [] } in
    let c1 : Connection ℕ = record { put = 10 ∷ []; buffer = 10 ∷ []; stored = []; calls = [] } in
    let c2 : Connection ℕ = record {
      put = 10 ∷ 20 ∷ [];
      buffer = 10 ∷ 20 ∷ [];
      stored = [];
      calls = [];
    } in
    next (next (next here (adds c0 10)) (adds c1 20))
      (flushes c2 one_back (10 ∷ []) (omega arith) (write (Perm.refl (10 ∷ 20 ∷ []))))

Reach-conserved_example :
    Perm half_written.put (half_written.stored ++ half_written.buffer)
    × All IsBatch half_written.calls
    × (half_written.buffer ≡ [] → Perm half_written.put half_written.stored)
Reach-conserved_example = Reach-conserved table half_written_run

flush_buffer_ends_example :
    flush_buffer table (10 ∷ 20 ∷ []) (one_back ∷ unprocessed [] ∷ []) ≡ some ([], none)
flush_buffer_ends_example =
    flush_buffer_ends table (10 ∷ 20 ∷ []) (one_back ∷ unprocessed [] ∷ []) (omega arith) progress
  where
    progress : Progress table (10 ∷ 20 ∷ []) (one_back ∷ unprocessed [] ∷ [])
    progress = unfold flush_batch_from_buffer cut returned same in (omega arith, (omega arith, tt))
