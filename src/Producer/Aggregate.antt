-- ===== src/Producer/Aggregate.antt =====
-- `Put` and `aggregate` of apps/bidder/code/stream/producer/producer.go: messages go through the
-- input channel into batches, and the batches into the output channel.
pub mod Order
pub mod Admission
use guidance_for_building_a.Common.{
  ℕ, ◌+◌, ◌-◌, List, [], ◌∷◌, ◌++◌, Bool, true, false, ltb, if◌then◌else◌,
}
use guidance_for_building_a.Producer.Size.{
  Message, message_proto_size, max_entry_size, entry_metadata_size,
}
use guidance_for_building_a.Producer.Batch.{
  Batch, Reason, size, interval, drain, empty, try_add_message,
}

pub data Put : Type 0 where
  enqueued : List Message → Put
  record_size_exceeded : Put

-- `Put`, with the compressor and the messages in the input channel.
unfoldable pub put : (List ℕ → Message) → List Message → List ℕ → Put
put compress input_chan bytes =
    if ltb max_entry_size (message_proto_size bytes + entry_metadata_size)
    then record_size_exceeded
    else enqueued (input_chan ++ compress bytes ∷ [])

-- `batchPool.get`
unfoldable pub get_batch : List Batch → Batch × List Batch
get_batch [] = (empty, [])
get_batch (b ∷ pool) = (b, pool)

-- The variables of `aggregate`, and the batches that it has sent to the output channel.
pub record Aggregator : Type 0 where
  pub current_batch : Batch
  pub last_send : ℕ
  pub batch_pool : List Batch
  pub output_chan : List Batch

-- What the `select` of the loop receives, and when: a message, the close of the input channel, or
-- a tick of the flush ticker.
pub data Event : Type 0 where
  message : ℕ → Message → Event
  closed tick : ℕ → Event

-- The closure `send`.
unfoldable pub send : Aggregator → Reason → ℕ → Aggregator
unfolding get_batch
send a reason now =
    let (b, pool) = get_batch a.batch_pool in
    record {
      current_batch = b;
      last_send = now;
      batch_pool = pool;
      output_chan = a.output_chan ++ record a.current_batch { flush_reason = reason } ∷ [];
    }

-- `// Message received.`
unfoldable pub receive : Aggregator → ℕ → Message → Aggregator
receive a now m =
    let (b, added) = try_add_message a.current_batch m in
    if added
    then record a { current_batch = b }
    else (let a' = send a size now in
        record a' { current_batch = (try_add_message a'.current_batch m).0 })

-- `// Periodic flush.`
unfoldable pub periodic : ℕ → Aggregator → ℕ → Aggregator
periodic flush_interval a now =
    if ltb flush_interval (now - a.last_send) then send a interval now else a

-- The loop, over the events in the order in which it receives them; it returns at the close.
unfoldable pub aggregate : ℕ → Aggregator → List Event → Aggregator
aggregate flush_interval a [] = a
aggregate flush_interval a (message now m ∷ events) =
    aggregate flush_interval (receive a now m) events
aggregate flush_interval a (tick now ∷ events) =
    aggregate flush_interval (periodic flush_interval a now) events
aggregate flush_interval a (closed now ∷ events) = send a drain now
