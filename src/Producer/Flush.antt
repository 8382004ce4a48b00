-- ===== src/Producer/Flush.antt =====
-- `flush` of apps/bidder/code/stream/producer/flush.go, with the pools of pool.go that it hands the
-- messages, the batch and the entries back to.
pub mod Release
use guidance_for_building_a.Common.{ℕ, List, [], ◌∷◌, ◌++◌, Option, none, some}
use guidance_for_building_a.Producer.Size.{Message}
use guidance_for_building_a.Producer.Batch.{Batch, reset}
use guidance_for_building_a.Producer.Compile.{
  Services, Compiler, Compiled, Entry, nothing, failed, request, put_entries, compile_batch,
}
use guidance_for_building_a.Producer.Send.{Output, Sent, Ending, send_request}

-- A flush worker with its compiler, and the pools that the workers share.
pub record Worker (s : Services) : Type 0 where
  pub compiler : Compiler s
  pub message_pool : List Message
  pub batch_pool : List Batch

-- How a flush ends: there was nothing to send, the batch could not be compiled, or the request was
-- sent.
pub data Flushed : Type 0 where
  no_messages not_compiled : Flushed
  sent : Sent → Flushed

-- `batchPool.put`
unfoldable pub put_batch : List Batch → Batch → List Batch
unfolding reset
put_batch pool b = reset b ∷ pool

unfoldable pub put_messages : List Message → List Message → List Message
put_messages pool [] = pool
put_messages pool (m ∷ ms) = put_messages (m ∷ pool) ms

module _ (s : Services) where
  -- The messages and the batch go back whatever `compileBatch` returned.
  release : Worker s → Batch → Compiler s → Worker s
  unfolding put_batch put_messages
  release w b c = record {
    compiler = c;
    message_pool = put_messages w.message_pool b.messages;
    batch_pool = put_batch w.batch_pool b;
  }

  -- The deferred release of the entries in hand when the call of `sendRequest` ended.
  release_entries : Worker s → List Entry → Worker s
  release_entries w records = record w {
    compiler = record w.compiler { entry_pool = put_entries w.compiler.entry_pool records };
  }

  send : Worker s → List Entry → List (Option Output) → Option (Worker s × Flushed)
  unfolding release_entries
  send w records outs = elim (send_request 0 records outs) [
    | none ↦ none
    | some t ↦ some (release_entries w t.records, sent t)
  ]

  -- `none` while the call has not returned: compiling the batch hangs, or an answer is awaited. (The
  -- request is nil for a batch without messages only, where `flush` has returned before.)
  unfoldable pub flush : Worker s → Batch → List (Option Output) → Option (Worker s × Flushed)
  unfolding release send
  flush w b outs = elim b.messages [
    | [] ↦ some (w, no_messages)
    | m ∷ ms ↦ elim (compile_batch s w.compiler b.messages) [
      | none ↦ none
      | some (compiled, c) ↦ elim compiled [
        | nothing ↦ none
        | failed ↦ some (release w b c, not_compiled)
        | request records ↦ send (release w b c) records outs
      ]
    ]
  ]
