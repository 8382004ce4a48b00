-- ===== src/Producer/Aggregate/Admission.antt =====
-- What `Put` lets into the input channel. It measures the message before compression, and the
-- entries hold it after compression.
use guidance_for_building_a.Common.{
  ℕ, ◌+◌, ◌≤◌, ◌<◌, ◌≡◌, ◌↔◌, List, [], ◌∷◌, ◌++◌, none, length, arith,
}
use guidance_for_building_a.Producer.Size.{
  Message, message_proto_size, max_entry_size, entry_metadata_size,
}
use guidance_for_building_a.Producer.Compile.{
  Services, Marshals, Compiler, Entry, Fits, compile_loop,
}
use guidance_for_building_a.Producer.Compile.Termination.{compile_loop_hangs}
use guidance_for_building_a.Producer.Aggregate.{enqueued, record_size_exceeded, put}

-- `Put` refuses a message exactly when it has more than 51141 bytes before compression (its error
-- speaks of 51200), and otherwise appends the compressed message to the channel.
pub put_limit :
    (compress : List ℕ → Message) (chan : List Message) (bytes : List ℕ)
    → ((put compress chan bytes ≡ record_size_exceeded) ↔ (51141 < length bytes))
      × (length bytes ≤ 51141 → put compress chan bytes ≡ enqueued (chan ++ compress bytes ∷ []))
unfolding put message_proto_size
put_limit compress chan bytes = (((λ h. ground arith), (λ h. ground arith)), λ h. ground arith)

-- A message that `Put` accepts, and that compression does not grow, is appended to the channel and
-- fits in an entry.
pub put-Fits :
    (compress : List ℕ → Message) (chan chan' : List Message) (bytes : List ℕ)
    → length (compress bytes) ≤ length bytes
    → put compress chan bytes ≡ enqueued chan'
    → (chan' ≡ chan ++ compress bytes ∷ []) × Fits (compress bytes)
unfolding put message_proto_size
put-Fits compress chan chan' bytes h e = (ground arith, ground arith)

-- Where marshalling never fails: a message of at most 51141 bytes that compression makes larger
-- than 51141 bytes is put in the channel, and a batch with it, wherever it stands, does not
-- compile in any number of rounds.
pub put_hangs :
    (s : Services)
    → Marshals s
    → (compress : List ℕ → Message) (chan : List Message) (bytes : List ℕ) (fuel : ℕ)
      (c : Compiler s) (pre post : List Message) (records : List Entry)
    → length bytes ≤ 51141
    → 51141 < length (compress bytes)
    → (put compress chan bytes ≡ enqueued (chan ++ compress bytes ∷ []))
      × (compile_loop s fuel c (pre ++ compress bytes ∷ post) records ≡ none)
put_hangs s marshals compress chan bytes fuel c pre post records small big = (
  (put_limit compress chan bytes).1 small,
  compile_loop_hangs s marshals fuel c pre (compress bytes) post records
      (oversize (compress bytes) big),
)
  where
    oversize :
        (m : Message)
        → 51141 < length m
        → max_entry_size < message_proto_size m + entry_metadata_size
    oversize m h = unfold message_proto_size in ground arith
