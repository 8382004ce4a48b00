-- ===== src/Producer/Compile.antt =====
-- apps/bidder/code/stream/producer/batch_compiler.go, and the entry pool of pool.go: a batch
-- becomes the entries of one PutRecords request.
pub mod Termination
pub mod Entries
pub mod Sizes
pub mod Contents
use guidance_for_building_a.Common.{
  ℕ, zero, suc, ◌+◌, ◌≤◌, ◌≡◌, List, [], ◌∷◌, ◌++◌, Option, none, some, length, drop, ltb, map,
  if◌then◌else◌,
}
use guidance_for_building_a.Producer.Size.{
  Message, message_proto_size, magic_number, max_entry_size, entry_metadata_size, md5_size,
  ksuid_partition_key_string_size,
}
use guidance_for_building_a.Producer.Wire.{Record, AggregatedRecord, aggregate_size}

-- `kinesis.PutRecordsRequestEntry`: its `Data` and its `PartitionKey`.
pub record Entry : Type 0 where
  pub bytes : List ℕ
  pub partition_key : Option (List ℕ)

-- What the compiler calls: the KSUID sequence, `proto.MarshalOptions.MarshalAppend` (`none` is an
-- error) and MD5.
pub record Services : Type 1 where
  pub Keys : Type 0
  pub next_key : Keys → List ℕ × Keys
  pub marshal_append : List ℕ → AggregatedRecord → Option (List ℕ)
  pub md5 : List ℕ → List ℕ

-- What those libraries document: a KSUID string has 27 bytes, MD5 gives 16, and marshalling appends
-- as many bytes as the wire format takes.
pub record IsDocumented (s : Services) : Type 0 where
  pub key_length : (k : s.Keys) → length (s.next_key k).0 ≡ ksuid_partition_key_string_size
  pub md5_length : (b : List ℕ) → length (s.md5 b) ≡ md5_size
  pub marshal_length :
      (b : List ℕ) (a : AggregatedRecord) (out : List ℕ)
      → s.marshal_append b a ≡ some out
      → length out ≡ length b + aggregate_size a

-- Marshalling fails on text that is not UTF-8 only, which a KSUID string is.
abbrev pub Marshals : Services → Type 0
Marshals s =
    (b : List ℕ) (a : AggregatedRecord) → (out : List ℕ) × (s.marshal_append b a ≡ some out)

pub record Compiler (s : Services) : Type 0 where
  pub keys : s.Keys
  pub entry_pool : List Entry

-- What `compileBatch` returns: no request for no messages, an error, or the entries of a request.
pub data Compiled : Type 0 where
  nothing failed : Compiled
  request : List Entry → Compiled

-- `entryPool.get`
unfoldable pub get_entry : List Entry → Entry × List Entry
get_entry [] = (record { bytes = []; partition_key = none }, [])
get_entry (e ∷ pool) = (e, pool)

-- `entryPool.put`
unfoldable pub put_entry : List Entry → Entry → List Entry
put_entry pool e = record e { bytes = []; partition_key = none } ∷ pool

unfoldable pub put_entries : List Entry → List Entry → List Entry
unfolding put_entry
put_entries pool [] = pool
put_entries pool (e ∷ es) = put_entries (put_entry pool e) es

-- A message that fits in an entry of its own.
abbrev pub Fits : Message → Type 0
Fits m = message_proto_size m + entry_metadata_size ≤ max_entry_size

-- `// Aggregate records.`: the records of one entry that has `size` bytes already.
unfoldable pub gather : ℕ → List Message → List Record
gather size [] = []
gather size (m ∷ ms) =
    let rest = gather (size + message_proto_size m) ms in
    if ltb max_entry_size (message_proto_size m + size)
    then []
    else record { partition_key_index = 0; payload = m } ∷ rest

-- The aggregate of one entry: all of its records use one partition key.
abbrev pub aggregate_of : List ℕ → List Message → AggregatedRecord
aggregate_of key messages = record {
  partition_key_table = key ∷ [];
  records = gather entry_metadata_size messages;
}

module _ (s : Services) where
  -- `// Add checksum.`
  abbrev pub finish_entry : List ℕ → List ℕ → Entry
  finish_entry key out = record {
    bytes = out ++ s.md5 (drop (length magic_number) out);
    partition_key = some key;
  }

  -- The number of messages and the entry, or `none` for an error.
  unfoldable pub compile_messages : Compiler s → List Message → Option (ℕ × Entry) × Compiler s
  unfolding get_entry put_entry
  compile_messages c messages =
      let (key, keys) = s.next_key c.keys in
      let (entry, pool) = get_entry c.entry_pool in
      elim (s.marshal_append (entry.bytes ++ magic_number) (aggregate_of key messages)) [
        | none ↦ (none, record { keys = keys; entry_pool = put_entry pool entry })
        | some out ↦ (
          some (length (aggregate_of key messages).records, finish_entry key out),
          record { keys = keys; entry_pool = pool },
        )
      ]

  -- The loop of `compileBatch` over the messages that are left, `records` holding the entries so
  -- far. The result is `none` if the fuel runs out.
  unfoldable pub compile_loop :
      ℕ → Compiler s → List Message → List Entry → Option (Compiled × Compiler s)
  compile_loop zero c messages records = none
  compile_loop (suc fuel) c [] records = some (request records, c)
  compile_loop (suc fuel) c (m ∷ ms) records =
      let (compiled, c') = compile_messages c (m ∷ ms) in
      elim compiled [
        | none ↦ some (failed, record c' { entry_pool = put_entries c'.entry_pool records })
        | some (n, entry) ↦ compile_loop fuel c' (drop n (m ∷ ms)) (records ++ entry ∷ [])
      ]

  -- One round for each message is enough where every round takes a message.
  unfoldable pub compile_batch : Compiler s → List Message → Option (Compiled × Compiler s)
  compile_batch c [] = some (nothing, c)
  compile_batch c (m ∷ ms) = compile_loop (suc (length (m ∷ ms))) c (m ∷ ms) []
