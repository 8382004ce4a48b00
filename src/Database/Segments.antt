-- ===== src/Database/Segments.antt =====
-- The parallel scan of a table: scan.go, scan_dynamo.go and scan_dax.go of
-- apps/bidder/code/database/dynamodb, as the answers to the workers in the order in which they come.
pub mod Errors
use guidance_for_building_a.Common.{
  ℕ, List, [], ◌∷◌, Bool, true, false, Option, none, some, get_elem?, set, replicate,
}
use guidance_for_building_a.Api.{Error, timeout}
use guidance_for_building_a.Database.Consumer.{Consumer, feed}

-- An answer of the database: a page of items, with or without a last evaluated key, or an error.
pub data Response (A : Type 0) : Type 0 where
  page : List A → Bool → Response A
  deadline_exceeded : Response A
  refused : Error → Response A

-- A worker reads on, or has returned.
pub data Worker : Type 0 where
  running : Worker
  returned : Option Error → Worker

pub record Scan (S : Type 0) : Type 0 where
  pub workers : List Worker
  pub last_error : Option Error
  pub consumed : S

unfoldable pub start : {S : Type 0} → ℕ → S → Scan S
start workers s = record { workers = replicate workers running; last_error = none; consumed = s }

-- `if err != nil { lastError = err }`
abbrev pub keep_error : Option Error → Option Error → Option Error
keep_error last_error none = last_error
keep_error last_error (some e) = some e

module _ {S A : Type 0} (consume : Consumer S A) where
  -- A round of `scanWorkerDynamo` or `scanWorkerDAX`, the consumer being called under the mutex.
  unfoldable pub read_page : S → Response A → S × Worker
  read_page s (page items more) =
      let (s', e) = feed consume s items in
      elim e [
        | some err ↦ (s', returned (some err))
        | none ↦ (s', elim more [ true ↦ running | false ↦ returned none ])
      ]
  read_page s deadline_exceeded = (s, returned (some timeout))
  read_page s (refused e) = (s, returned (some e))

  unfoldable pub finish : Scan S → ℕ → S → Worker → Scan S
  finish scan i s running = record scan { consumed = s }
  finish scan i s (returned e) = record {
    workers = set scan.workers i (returned e);
    last_error = keep_error scan.last_error e;
    consumed = s;
  }

  -- Worker `i` gets an answer.
  unfoldable pub answer : Scan S → ℕ → Response A → Scan S
  answer scan i response = elim (get_elem? scan.workers i) [
    | none ↦ scan
    | some (returned e) ↦ scan
    | some running ↦ let (s, w) = read_page scan.consumed response in finish scan i s w
  ]

  unfoldable pub run : Scan S → List (ℕ × Response A) → Scan S
  run scan [] = scan
  run scan ((i, response) ∷ rest) = run (answer scan i response) rest

-- `wg.Wait()` returns once no worker runs.
unfoldable pub waited : List Worker → Bool
waited [] = true
waited (running ∷ ws) = false
waited (returned e ∷ ws) = waited ws
