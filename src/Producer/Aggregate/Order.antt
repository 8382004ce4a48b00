-- ===== src/Producer/Aggregate/Order.antt =====
-- No message is lost, repeated or put out of order on its way through the aggregator, and every
-- batch that leaves it keeps its limits.
use guidance_for_building_a.Common.{
  ℕ, ◌+◌, ◌*◌, ◌≤◌, ◌≡◌, refl, ap, sym, ◌∙◌, List, [], ◌∷◌, ◌++◌, true, false, All, All-append,
  append_assoc, append-nil, Bool-cases, inl, inr, arith,
}
use guidance_for_building_a.Producer.Size.{
  Message, message_proto_size, max_request_size, entry_total_metadata_size,
}
use guidance_for_building_a.Producer.Batch.{
  Batch, Reason, size, interval, drain, empty, try_add_message, reset,
}
use guidance_for_building_a.Producer.Batch.Limits.{IsValid, empty-IsValid, try_add_message-IsValid}
use guidance_for_building_a.Producer.Compile.Entries.{
  IsCounted, empty-IsCounted, try_add_message-IsCounted,
}
use guidance_for_building_a.Producer.Aggregate.{
  Aggregator, Event, message, closed, tick, get_batch, send, receive, periodic, aggregate,
}

-- A batch that may be sent.
abbrev pub IsGood : Batch → Type 0
IsGood b = IsValid b × IsCounted b

-- The batches of the pool are empty, and those in hand and sent are good.
pub record IsSound (a : Aggregator) : Type 0 where
  pub current : IsGood a.current_batch
  pub pool : All (λ b. b ≡ empty) a.batch_pool
  pub sent : All IsGood a.output_chan

pub reset-eq-empty : (b : Batch) → reset b ≡ empty
unfolding reset
reset-eq-empty b = refl

-- A message that an empty batch takes.
abbrev pub IsSmall : Message → Type 0
IsSmall m = message_proto_size m + 2 * entry_total_metadata_size ≤ max_request_size

-- All messages that went through, in order.
abbrev pub messages_of : List Batch → List Message
messages_of [] = []
messages_of (b ∷ bs) = b.messages ++ messages_of bs

abbrev pub taken : Aggregator → List Message
taken a = messages_of a.output_chan ++ a.current_batch.messages

-- The messages among the events, up to the close.
unfoldable pub received : List Event → List Message
received [] = []
received (message now m ∷ events) = m ∷ received events
received (tick now ∷ events) = received events
received (closed now ∷ events) = []

get_batch-empty :
    (pool : List Batch)
    → All (λ b. b ≡ empty) pool
    → ((get_batch pool).0 ≡ empty) × All (λ b. b ≡ empty) (get_batch pool).1
unfolding get_batch
get_batch-empty [] h = (refl, tt)
get_batch-empty (b ∷ pool) h = h

IsGood-reason : (b : Batch) (r : Reason) → IsGood b → IsGood (record b { flush_reason = r })
IsGood-reason b r (v, c) =
    (record { counted = v.counted; current = v.current; within = v.within; filled = v.filled }, c)

pub send-IsSound : (a : Aggregator) (r : Reason) (now : ℕ) → IsSound a → IsSound (send a r now)
unfolding send
send-IsSound a r now h =
    let (e, p) = get_batch-empty a.batch_pool h.pool in
    record {
      current = rw e (empty-IsValid, empty-IsCounted);
      pool = p;
      sent =
          All-append IsGood a.output_chan _ h.sent (IsGood-reason a.current_batch r h.current, tt);
    }

try_add_message_taken :
    (b : Batch) (m : Message)
    → (try_add_message b m).1 ≡ true
    → (try_add_message b m).0.messages ≡ b.messages ++ m ∷ []
unfolding try_add_message
try_add_message_taken b m h = ground arith

try_add_message_refused :
    (b : Batch) (m : Message) → (try_add_message b m).1 ≡ false → (try_add_message b m).0 ≡ b
unfolding try_add_message
try_add_message_refused b m h = ground arith

-- An empty batch takes a message that is not larger than a request, even if it is larger than an
-- entry.
pub try_add_message-empty : (m : Message) → IsSmall m → (try_add_message empty m).1 ≡ true
unfolding try_add_message
try_add_message-empty m h = ground arith

messages_of-snoc :
    (bs : List Batch) (b : Batch) → messages_of (bs ++ b ∷ []) ≡ messages_of bs ++ b.messages
messages_of-snoc [] b = append-nil b.messages
messages_of-snoc (c ∷ bs) b =
    ap (◌++◌ c.messages) (messages_of-snoc bs b)
    ∙ sym (append_assoc c.messages (messages_of bs) b.messages)

taken-send : (a : Aggregator) (r : Reason) (now : ℕ) → IsSound a → taken (send a r now) ≡ taken a
unfolding send
taken-send a r now h =
    let (e, p) = get_batch-empty a.batch_pool h.pool in
    rw (e, messages_of-snoc a.output_chan (record a.current_batch { flush_reason = r }))
      (append-nil (taken a))

pub receive-IsSound :
    (a : Aggregator) (now : ℕ) (m : Message) → IsSound a → IsSound (receive a now m)
unfolding receive
receive-IsSound a now m h = elim (Bool-cases (try_add_message a.current_batch m).1) [
  | inl e ↦ rw (e, receive) (record { current = ok a h; pool = h.pool; sent = h.sent })
  | inr e ↦
      let h' = send-IsSound a size now h in
      rw (e, receive) (record { current = ok _ h'; pool = h'.pool; sent = h'.sent })
]
  where
    ok : (c : Aggregator) → IsSound c → IsGood (try_add_message c.current_batch m).0
    ok c k = (
      try_add_message-IsValid c.current_batch m k.current.0,
      try_add_message-IsCounted c.current_batch m k.current.1,
    )

taken-receive :
    (a : Aggregator) (now : ℕ) (m : Message)
    → IsSound a
    → IsSmall m
    → taken (receive a now m) ≡ taken a ++ m ∷ []
unfolding receive
taken-receive a now m h small = elim (Bool-cases (try_add_message a.current_batch m).1) [
  | inl e ↦
      rw (e, receive)
        (rw (try_add_message_taken a.current_batch m e)
          (sym (append_assoc (messages_of a.output_chan) a.current_batch.messages (m ∷ []))))
  | inr e ↦
      let a' = send a size now in
      let c = (get_batch-empty a.batch_pool h.pool).0 in
      let fresh : a'.current_batch ≡ empty = unfold send in c in
      let added : (try_add_message a'.current_batch m).1 ≡ true =
        rw fresh (try_add_message-empty m small) in
      rw (e, receive)
        (rw (try_add_message_taken a'.current_batch m added) (
          sym (append_assoc (messages_of a'.output_chan) a'.current_batch.messages (m ∷ []))
          ∙ ap (λ l. l ++ m ∷ []) (taken-send a size now h)))
]

pub periodic-IsSound : (i : ℕ) (a : Aggregator) (now : ℕ) → IsSound a → IsSound (periodic i a now)
unfolding periodic
periodic-IsSound i a now h = ground (arith, send-IsSound a interval now h)

taken-periodic : (i : ℕ) (a : Aggregator) (now : ℕ) → IsSound a → taken (periodic i a now) ≡ taken a
unfolding periodic
taken-periodic i a now h = ground (arith, taken-send a interval now h)

-- From a sound state, every batch that the loop sends and the one in hand keep the limits of a
-- request and count their entries, and the batches of the pool are empty.
pub aggregate-IsSound :
    (i : ℕ) (a : Aggregator) (events : List Event) → IsSound a → IsSound (aggregate i a events)
unfolding aggregate
aggregate-IsSound i a [] h = h
aggregate-IsSound i a (message now m ∷ events) h =
    aggregate-IsSound i (receive a now m) events (receive-IsSound a now m h)
aggregate-IsSound i a (tick now ∷ events) h =
    aggregate-IsSound i (periodic i a now) events (periodic-IsSound i a now h)
aggregate-IsSound i a (closed now ∷ events) h = send-IsSound a drain now h

-- What the loop has taken, in the batches that it sent and in the one in hand, is what it had and
-- the messages that it received, in the order in which they came.
pub taken-aggregate :
    (i : ℕ) (a : Aggregator) (events : List Event)
    → IsSound a
    → All IsSmall (received events)
    → taken (aggregate i a events) ≡ taken a ++ received events
unfolding aggregate received
taken-aggregate i a [] h small = sym (append-nil (taken a))
taken-aggregate i a (message now m ∷ events) h small =
    taken-aggregate i (receive a now m) events (receive-IsSound a now m h) small.1
    ∙ ap (λ l. l ++ received events) (taken-receive a now m h small.0)
    ∙ append_assoc (taken a) (m ∷ []) (received events)
taken-aggregate i a (tick now ∷ events) h small =
    taken-aggregate i (periodic i a now) events (periodic-IsSound i a now h) small
    ∙ ap (λ l. l ++ received events) (taken-periodic i a now h)
taken-aggregate i a (closed now ∷ events) h small =
    taken-send a drain now h ∙ sym (append-nil (taken a))

closed-empty :
    (i : ℕ) (a : Aggregator) (events : List Event) (now : ℕ)
    → IsSound a
    → (aggregate i a (events ++ closed now ∷ [])).current_batch ≡ empty
unfolding aggregate send
closed-empty i a [] now h = (get_batch-empty a.batch_pool h.pool).0
closed-empty i a (message t m ∷ events) now h =
    closed-empty i (receive a t m) events now (receive-IsSound a t m h)
closed-empty i a (tick t ∷ events) now h =
    closed-empty i (periodic i a t) events now (periodic-IsSound i a t h)
closed-empty i a (closed t ∷ events) now h = (get_batch-empty a.batch_pool h.pool).0

-- If the state is sound and every message received is one that an empty batch takes, then once the
-- input channel is closed the batches sent hold the messages that the aggregator held before and
-- all messages received, each once and in that order.
pub aggregate_drains :
    (i : ℕ) (a : Aggregator) (events : List Event) (now : ℕ)
    → IsSound a
    → All IsSmall (received (events ++ closed now ∷ []))
    → messages_of (aggregate i a (events ++ closed now ∷ [])).output_chan
      ≡ taken a ++ received (events ++ closed now ∷ [])
aggregate_drains i a events now h small =
    let b = aggregate i a (events ++ closed now ∷ []) in
    sym (append-nil (messages_of b.output_chan))
    ∙ ap (λ (c : Batch). messages_of b.output_chan ++ c.messages)
        (sym (closed-empty i a events now h))
    ∙ taken-aggregate i a (events ++ closed now ∷ []) h small
