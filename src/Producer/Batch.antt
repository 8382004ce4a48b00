-- ===== src/Producer/Batch.antt =====
-- apps/bidder/code/stream/producer/batch.go: the batch that is sent as one request.
pub mod Limits
use guidance_for_building_a.Common.{
  ℕ, ◌+◌, ◌*◌, List, [], ◌∷◌, ◌++◌, Bool, true, false, ltb, ◌==◌, if◌then◌else◌,
}
use guidance_for_building_a.Producer.Size.{
  Message, message_proto_size, max_entries_per_request, max_entry_size, max_request_size,
  entry_metadata_size, entry_total_metadata_size,
}

-- `flushReason`; `unset` is the empty string.
pub data Reason : Type 0 where
  unset size retry interval drain : Reason

pub record Batch : Type 0 where
  pub total_message_size : ℕ
  pub entry_message_size : ℕ
  pub entry_number : ℕ
  pub messages : List Message
  pub flush_reason : Reason

-- `&batch{}`
abbrev pub empty : Batch
empty = record {
  total_message_size = 0;
  entry_message_size = 0;
  entry_number = 0;
  messages = [];
  flush_reason = unset;
}

unfoldable pub request_total_size : Batch → ℕ
request_total_size b = (b.entry_number + 1) * entry_total_metadata_size + b.total_message_size

unfoldable pub entry_size : Batch → ℕ
entry_size b = entry_metadata_size + b.entry_message_size

-- `// Add message.`
add_message : Batch → Message → Batch
add_message b m = record b {
  total_message_size = b.total_message_size + message_proto_size m;
  entry_message_size = b.entry_message_size + message_proto_size m;
  messages = b.messages ++ m ∷ [];
}

-- `// Add new entry.`
add_entry : Batch → Batch
add_entry b = record b { entry_number = b.entry_number + 1; entry_message_size = 0 }

-- The batch afterwards, and whether it took the message.
unfoldable pub try_add_message : Batch → Message → Batch × Bool
unfolding add_message add_entry request_total_size entry_size
try_add_message b m =
    let msg_size = message_proto_size m in
    if ltb max_request_size (msg_size + request_total_size b)
    then (b, false)
    else if ltb max_entry_size (msg_size + entry_size b)
    then (if b.entry_number == max_entries_per_request
        then (b, false)
        else if ltb max_request_size (msg_size + request_total_size b + entry_total_metadata_size)
        then (b, false)
        else (add_message (add_entry b) m, true))
    else (add_message b m, true)

unfoldable pub reset : Batch → Batch
reset b = record b {
  total_message_size = 0;
  entry_message_size = 0;
  entry_number = 0;
  messages = [];
  flush_reason = unset;
}
