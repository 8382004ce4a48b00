-- ===== src/Producer/Send.antt =====
-- `sendRequest` and `failures` of apps/bidder/code/stream/producer/flush.go: the entries of a request
-- are put, and those that fail are put again.
pub mod Delivery
use guidance_for_building_a.Common.{
  ℕ, ◌+◌, List, [], ◌∷◌, Option, none, some, Bool, true, false, ◌==◌, ◌>>=◌,
}
use guidance_for_building_a.Producer.Compile.{Entry}

-- `kinesis.PutRecordsResultEntry`, by whether its `ErrorCode` is nil.
pub data Status : Type 0 where
  stored : Status
  error_code : ℕ → Status

-- `kinesis.PutRecordsOutput`.
pub record Output : Type 0 where
  pub failed_record_count : ℕ
  pub results : List Status

-- The records that the response marks as failed; `none` is the panic of an index out of range.
unfoldable pub failures : List Entry → List Status → Option (List Entry)
failures records [] = some []
failures [] (stored ∷ rest) = failures [] rest
failures [] (error_code code ∷ rest) = none
failures (e ∷ records) (stored ∷ rest) = failures records rest
failures (e ∷ records) (error_code code ∷ rest) = do out ← failures records rest; some (e ∷ out)

-- How a call of `sendRequest` ends: every record is stored, the client returns an error, or an
-- index is out of range.
pub data Ending : Type 0 where
  delivered refused panicked : Ending

pub record Sent : Type 0 where
  pub ending : Ending
  -- `request.Records` when the call ends
  pub records : List Entry
  pub retries : ℕ
  -- the requests that the client was given and answered, in order
  pub rounds : List (List Entry × Output)

abbrev add_round : List Entry × Output → Option Sent → Option Sent
add_round r none = none
add_round r (some t) = some (record t { rounds = r ∷ t.rounds })

-- The answers of the client in the order of its calls: `none` is an error. The result is `none`
-- while the loop still waits for an answer.
unfoldable pub send_request : ℕ → List Entry → List (Option Output) → Option Sent
send_request retries records [] = none
send_request retries records (none ∷ outs) =
    some (record { ending = refused; records = records; retries = retries; rounds = [] })
send_request retries records (some out ∷ outs) = elim (out.failed_record_count == 0) [
  | true ↦ some (record {
    ending = delivered;
    records = records;
    retries = retries;
    rounds = (records, out) ∷ [];
  })
  | false ↦ elim (failures records out.results) [
    | none ↦ some (record {
      ending = panicked;
      records = records;
      retries = retries;
      rounds = (records, out) ∷ [];
    })
    | some failed ↦ add_round (records, out) (send_request (retries + 1) failed outs)
  ]
]
