-- ===== src/Datagen/Buffer.antt =====
-- The buffer of writes to DynamoDB: `PutBuffered`, `Close`, `flushBuffer` and `flushBatchFromBuffer`
-- of tools/datagen/pkg/generator/dynamodb.go. The answers of `BatchWriteItem` are an argument. A
-- method that locks the mutex is one step; a ticker flushes at any time between the steps of the
-- writer.
pub mod Conserved
pub mod Ends
use guidance_for_building_a.Common.{
  ℕ, zero, suc, ◌+◌, ◌<◌, ◌≡◌, List, [], ◌∷◌, ◌++◌, Option, none, some, Bool, ltb, leb, length,
  take, drop, if◌then◌else◌,
}
use mathlib.Core.List.{Perm}
use guidance_for_building_a.Id.{same}
use guidance_for_building_a.Api.{Error}

-- `putManyBatchLimit`
abbrev pub put_many_batch_limit : ℕ
put_many_batch_limit = 25

abbrev pub Table : Type 0
Table = List ℕ

-- What `BatchWriteItem` returns: an error, or the items of each table that it did not write.
pub data Answer (A : Type 0) : Type 0 where
  failed : Error → Answer A
  unprocessed : List (Table × List A) → Answer A

module _ {A : Type 0} where
  -- The number of items in the next call.
  unfoldable pub cut : List A → ℕ
  cut buffer =
      if ltb (length buffer) put_many_batch_limit then length buffer else put_many_batch_limit

  -- The items that go back to the buffer; another table's are left out.
  unfoldable pub returned : Table → List (Table × List A) → List A
  returned table [] = []
  returned table ((key, value) ∷ rest) =
      if same key table then value ++ returned table rest else returned table rest

  -- `flushBatchFromBuffer`, with the answer in case there is a call; an empty buffer makes none.
  unfoldable pub flush_batch_from_buffer : Table → List A → Answer A → List A × Option Error
  flush_batch_from_buffer table [] answer = ([], none)
  flush_batch_from_buffer table (x ∷ xs) (failed e) = (x ∷ xs, some e)
  flush_batch_from_buffer table (x ∷ xs) (unprocessed items) =
      (drop (cut (x ∷ xs)) (x ∷ xs) ++ returned table items, none)

  -- `flushBuffer`, which is `Close`: `none` if it still waits for an answer.
  unfoldable pub flush_buffer : Table → List A → List (Answer A) → Option (List A × Option Error)
  flush_buffer table [] answers = some ([], none)
  flush_buffer table (x ∷ xs) [] = none
  flush_buffer table (x ∷ xs) (answer ∷ answers) =
      let (buffer, e) = flush_batch_from_buffer table (x ∷ xs) answer in
      elim e [ none ↦ flush_buffer table buffer answers | some err ↦ some (buffer, some err) ]

  -- `PutBuffered`: with the answer in case the buffer is full.
  unfoldable pub put_buffered : Table → List A → A → Answer A → List A × Option Error
  put_buffered table buffer item answer =
      let buffer' = buffer ++ item ∷ [] in
      if leb put_many_batch_limit (length buffer')
      then flush_batch_from_buffer table buffer' answer
      else (buffer', none)

-- A connection among its users: what was put, what is in the buffer, what the table holds, and the
-- calls of `BatchWriteItem`.
pub record Connection (A : Type 0) : Type 0 where
  pub put : List A
  pub buffer : List A
  pub stored : List A
  pub calls : List (List A)

-- What `BatchWriteItem` documents: of the items of a call, those that it does not return are stored.
pub data Writes {A : Type 0} (table : Table) (batch : List A) : Answer A → List A → Type 0 where
  no_write : {e : Error} → Writes table batch (failed e) []
  write :
      {items : List (Table × List A)} {done : List A}
      → Perm batch (done ++ returned table items)
      → Writes table batch (unprocessed items) done

-- `addToBuffer` and `flushBatchFromBuffer`, by whichever goroutine; the latter
-- does nothing on an empty buffer.
pub data Step {A : Type 0} (table : Table) : Connection A → Connection A → Type 0 where
  adds :
      (c : Connection A) (item : A)
      → Step table c (record c { put = c.put ++ item ∷ []; buffer = c.buffer ++ item ∷ [] })
  flushes :
      (c : Connection A) (answer : Answer A) (done : List A)
      → 0 < length c.buffer
      → Writes table (take (cut c.buffer) c.buffer) answer done
      → Step table c (record c {
        buffer = (flush_batch_from_buffer table c.buffer answer).0;
        stored = c.stored ++ done;
        calls = c.calls ++ take (cut c.buffer) c.buffer ∷ [];
      })

pub data Reach {A : Type 0} (table : Table) (b : Connection A) : Connection A → Type 0 where
  here : Reach table b b
  next : {c d : Connection A} → Reach table b c → Step table c d → Reach table b d
