-- ===== src/Producer/Batch/Limits.antt =====
-- A batch stays within the limits of a Kinesis request.
use guidance_for_building_a.Common.{
  ◌+◌, ◌-◌, ◌*◌, ◌≤◌, ◌<◌, ◌≡◌, refl, List, [], ◌∷◌, ◌++◌, sum, map, sum-append, map-append, arith,
}
use guidance_for_building_a.Producer.Size.{
  Message, message_proto_size, max_entry_size, max_request_size, entry_metadata_size,
  max_entries_per_request, entry_total_metadata_size,
}
use guidance_for_building_a.Producer.Batch.{Batch, empty, try_add_message}

-- What the counters of a batch mean, and the limits that they stay in.
pub record IsValid (b : Batch) : Type 0 where
  pub counted : b.total_message_size ≡ sum (map message_proto_size b.messages)
  pub current : b.entry_message_size ≤ b.total_message_size
  pub within :
      (b.entry_number + 1) * entry_total_metadata_size + b.total_message_size ≤ max_request_size
  -- An entry and the first message of the next are together above the limit of an entry, so that twice
  -- the bytes of the messages are more than the closed entries could hold.
  pub filled :
      b.entry_number * (max_entry_size + 1 - entry_metadata_size) + b.entry_message_size
      ≤ 2 * b.total_message_size

pub empty-IsValid : IsValid empty
empty-IsValid = record {
  counted = refl;
  current = omega arith;
  within = omega arith;
  filled = omega arith;
}

sum_snoc :
    (ms : List Message) (m : Message)
    → sum (map message_proto_size (ms ++ m ∷ []))
      ≡ sum (map message_proto_size ms) + message_proto_size m
sum_snoc ms m =
    rw map-append
      (omega (arith, sum-append (map message_proto_size ms) (message_proto_size m ∷ [])))

-- A valid batch is valid after an attempt to add a message, taken or not: its total is the size of its
-- messages, its open entry has no more than that, its size with the metadata of each entry is within
-- 5 MiB, and twice the total is at least what its open entry has and one byte more than an entry can
-- hold for each entry that is closed.
pub try_add_message-IsValid :
    (b : Batch) (m : Message) → IsValid b → IsValid (try_add_message b m).0
unfolding try_add_message
try_add_message-IsValid b m v = ground (arith, sum_snoc b.messages m)

-- A valid batch never needs more records than a request may have: the limit on the bytes of a
-- request stops it first.
pub entries-lt-max : {b : Batch} → IsValid b → b.entry_number + 1 < max_entries_per_request
entries-lt-max v = omega (arith, v.filled, v.within, v.current)
