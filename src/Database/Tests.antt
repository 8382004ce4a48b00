-- ===== src/Database/Tests.antt =====
-- Two budgets, read with a consumer that collects them and refuses the third.
use guidance_for_building_a.Common.{
  ℕ, ◌≡◌, ◌↔◌, refl, List, [], ◌∷◌, ◌++◌, true, false, none, some, All, length, replicate, ltb,
  if◌then◌else◌, arith,
}
use guidance_for_building_a.Api.{other, Budget}
use guidance_for_building_a.Database.Consumer.{Consumer, feed}
use guidance_for_building_a.Database.Budgets.{
  binary, unmarshall_budget_attributes_v1, unmarshall_budget_attributes_v2, read_batch,
  compress_all,
}
use guidance_for_building_a.Database.Budgets.RoundTrip.{IsBudget, readers-compress_all}
use guidance_for_building_a.Database.Devices.{concat}
use guidance_for_building_a.Database.DeviceRepository.{
  get_some, dax, dynamo_db, item, no_item, failed, get_aerospike, bin, key_not_found, timed_out,
  Reads, get-Reads,
}
use guidance_for_building_a.Database.Segments.{Response, page, deadline_exceeded, start, run}
use guidance_for_building_a.Database.Segments.Errors.{succeeded, run_error}

abbrev collect : Consumer (List Budget) Budget
collect s b = if ltb (length s) 2 then (s ++ b ∷ [], none) else (s, some (other 1))

abbrev first : Budget
first = record { campaign_id = replicate 16 1; available = 1000 }

abbrev second : Budget
second = record { campaign_id = replicate 16 2; available = 70000 }

are_budgets : All IsBudget (first ∷ second ∷ [])
are_budgets = (
  record { id_length = refl; word = omega arith },
  (record { id_length = refl; word = omega arith }, tt),
)

readers-compress_all_example :
    (unmarshall_budget_attributes_v1 collect (some (binary (compress_all (first ∷ second ∷ [])))) []
      ≡ some (feed collect [] (first ∷ second ∷ [])))
    × (unmarshall_budget_attributes_v2 collect
          (some (binary (compress_all (first ∷ second ∷ []))))
          []
        ≡ some (feed collect [] (first ∷ second ∷ [])))
    × (read_batch collect (compress_all (first ∷ second ∷ [])) []
        ≡ some (feed collect [] (first ∷ second ∷ [])))
readers-compress_all_example = readers-compress_all collect (first ∷ second ∷ []) [] are_budgets

abbrev events : List (ℕ × Response Budget)
events = (1, page (first ∷ []) true) ∷ (0, deadline_exceeded) ∷ (1, page (second ∷ []) false) ∷ []

run_error_example :
    let scan = run collect (start 2 []) events in
    ((scan.last_error ≡ none) ↔ (succeeded scan.workers ≡ true))
run_error_example = run_error collect 2 [] events

abbrev audiences : List (List ℕ)
audiences = replicate 16 5 ∷ []

get-Reads_example :
    Reads
      (get_some dax)
      audiences
      []
      (item (some (binary (concat audiences))))
      no_item
      (failed true (other 1))
    × Reads
        (get_some dynamo_db)
        audiences
        []
        (item (some (binary (concat audiences))))
        no_item
        (failed true (other 1))
    × Reads get_aerospike audiences [] (bin (some (concat audiences))) key_not_found timed_out
get-Reads_example = get-Reads audiences [] (other 1) (refl, tt)
