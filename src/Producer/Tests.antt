-- ===== src/Producer/Tests.antt =====
-- A batch of two messages, compiled by services of known sizes.
use mathlib.Core.List.{Perm}
use mathlib.Core.List.{reverse}
use guidance_for_building_a.Common.{
  ℕ, ◌+◌, ◌<◌, ◌≤◌, ◌≡◌, ◌≢◌, refl, ap, subst, List, [], ◌∷◌, ◌++◌, none, some, All, length,
  replicate, length-replicate, length-append, arith, ◌∙◌,
}
use guidance_for_building_a.Producer.Size.{
  Message, message_proto_size, max_entry_size, max_request_size, max_entries_per_request,
  magic_number,
}
use guidance_for_building_a.Producer.Wire.{
  record_size, delimited_size, aggregate_size, varint_size, message_proto_size-wire,
}
use guidance_for_building_a.Producer.Batch.{
  empty, Batch, size, unset, try_add_message, request_total_size, reset,
}
use guidance_for_building_a.Producer.Batch.Limits.{IsValid, try_add_message-IsValid}
use guidance_for_building_a.Producer.Compile.{
  Services, IsDocumented, Compiler, Compiled, Entry, Fits, request, finish_entry, gather, get_entry,
  put_entry, put_entries, compile_messages, compile_loop, compile_batch,
}
use guidance_for_building_a.Producer.Compile.Termination.{compile_batch_ends}
use guidance_for_building_a.Producer.Compile.Entries.{IsCounted, fill, place}
use guidance_for_building_a.Producer.Compile.Sizes.{IsClean, request_bytes, compile_batch-limits}
use guidance_for_building_a.Producer.Compile.Contents.{Holds, compile_batch-Holds}
use guidance_for_building_a.Producer.Send.{
  Output, Sent, stored, error_code, delivered, failures, send_request,
}
use guidance_for_building_a.Producer.Send.Delivery.{
  Answers, Accounts, error_count, stored_in, send_request-Accounts,
}
use guidance_for_building_a.Producer.Flush.{Worker, sent, flush, put_batch, put_messages}
use guidance_for_building_a.Producer.Flush.Release.{flush-releases, flush-delivers, flush_ends}
use guidance_for_building_a.Producer.Aggregate.{
  Aggregator, message, tick, closed, aggregate, put, enqueued,
}
use guidance_for_building_a.Producer.Aggregate.Order.{
  IsSound, IsSmall, messages_of, taken, received, aggregate-IsSound, aggregate_drains,
}
use guidance_for_building_a.Producer.Aggregate.Admission.{put_hangs}

abbrev one : Message
one = 1 ∷ []

abbrev two : Message
two = 2 ∷ 3 ∷ []

abbrev services : Services
services = record {
  Keys = ℕ;
  next_key = λ k. (replicate 27 k, k + 1);
  marshal_append = λ b a. some (b ++ replicate (aggregate_size a) 7);
  md5 = λ b. replicate 16 0;
}

services-IsDocumented : IsDocumented services
services-IsDocumented = record {
  key_length = λ k. refl;
  md5_length = λ b. refl;
  marshal_length = λ b a out e.
      let made : b ++ replicate (aggregate_size a) 7 ≡ out = cc e in
      rw (← made) (
        length-append b (replicate (aggregate_size a) 7)
        ∙ ap (λ n. length b + n) (length-replicate {A = ℕ} (aggregate_size a) 7));
}

abbrev compiler : Compiler services
compiler = record { keys = 4; entry_pool = [] }

abbrev compiled : Compiler services
compiled = record { keys = 5; entry_pool = [] }

abbrev entry : Entry
entry = finish_entry services (replicate 27 4) (magic_number ++ replicate 44 7)

abbrev batch : Batch
batch = record {
  total_message_size = 15;
  entry_message_size = 15;
  entry_number = 0;
  messages = one ∷ two ∷ [];
  flush_reason = size;
}

compile_batch-entry :
    compile_batch services compiler (one ∷ two ∷ []) ≡ some (request (entry ∷ []), compiled)
unfolding compile_batch compile_loop compile_messages gather get_entry put_entry message_proto_size
    aggregate_size delimited_size record_size varint_size
compile_batch-entry = refl

fits : All Fits (one ∷ two ∷ [])
unfolding message_proto_size
fits = (omega arith, (omega arith, tt))

compile_batch-Holds_example : Holds services (one ∷ two ∷ []) (entry ∷ [])
compile_batch-Holds_example =
    compile_batch-Holds services compiler compiled (one ∷ two ∷ []) (entry ∷ []) fits tt
      compile_batch-entry

batch-IsValid : IsValid batch
unfolding message_proto_size
batch-IsValid = record {
  counted = refl;
  current = omega arith;
  within = omega arith;
  filled = omega arith;
}

batch-IsCounted : IsCounted batch
unfolding fill place message_proto_size
batch-IsCounted = refl

compile_batch-limits_example :
    All (λ e. length e.bytes ≤ max_entry_size) (entry ∷ [])
    × (request_bytes (entry ∷ []) ≡ request_total_size batch)
    × (request_bytes (entry ∷ []) ≤ max_request_size)
    × (1 < max_entries_per_request)
    × IsClean compiled.entry_pool
compile_batch-limits_example =
    compile_batch-limits services services-IsDocumented batch compiler compiled (entry ∷ [])
      batch-IsValid batch-IsCounted fits tt compile_batch-entry

compile_batch_ends_example :
    (r : Compiled × Compiler services) × (compile_batch services compiler (one ∷ two ∷ []) ≡ some r)
compile_batch_ends_example = compile_batch_ends services compiler (one ∷ two ∷ []) fits

try_add_message-IsValid_example : IsValid (try_add_message batch one).0
try_add_message-IsValid_example = try_add_message-IsValid batch one batch-IsValid

message_proto_size-wire_example :
    message_proto_size two
    ≡ delimited_size (record_size (record { partition_key_index = 0; payload = two }))
message_proto_size-wire_example = message_proto_size-wire two (omega arith)

-- A first answer that stores one of two entries, and a second that stores the other.
abbrev other_entry : Entry
other_entry = record { bytes = 5 ∷ []; partition_key = none }

abbrev partial : Output
partial = record { failed_record_count = 1; results = stored ∷ error_code 3 ∷ [] }

abbrev complete : Output
complete = record { failed_record_count = 0; results = stored ∷ [] }

abbrev delivery : Sent
delivery = record {
  ending = delivered;
  records = other_entry ∷ [];
  retries = 1;
  rounds = (entry ∷ other_entry ∷ [], partial) ∷ (other_entry ∷ [], complete) ∷ [];
}

answers : Answers (entry ∷ other_entry ∷ []) (some partial ∷ some complete ∷ [])
unfolding failures error_count
answers = (
  record { each = refl; counted = refl },
  λ failed e.
      let same : other_entry ∷ [] ≡ failed = cc e in
      subst (λ es. Answers es (some complete ∷ [])) same
        (record { each = refl; counted = refl }, λ failed' e'. tt),
)

sends :
    send_request 0 (entry ∷ other_entry ∷ []) (some partial ∷ some complete ∷ []) ≡ some delivery
unfolding send_request failures
sends = refl

send_request-Accounts_example : Perm (stored_in delivery.rounds) (entry ∷ other_entry ∷ [])
send_request-Accounts_example =
    send_request-Accounts 0 (entry ∷ other_entry ∷ []) (some partial ∷ some complete ∷ []) delivery
      answers sends

abbrev worker : Worker services
worker = record { compiler = compiler; message_pool = []; batch_pool = [] }

abbrev flushed : Worker services
flushed = record {
  compiler = record compiled { entry_pool = record { bytes = []; partition_key = none } ∷ [] };
  message_pool = two ∷ one ∷ [];
  batch_pool =
      record {
        total_message_size = 0;
        entry_message_size = 0;
        entry_number = 0;
        messages = [];
        flush_reason = unset;
      }
      ∷ [];
}

abbrev last : Sent
last = record {
  ending = delivered;
  records = entry ∷ [];
  retries = 0;
  rounds = (entry ∷ [], complete) ∷ [];
}

flushes : flush services worker batch (some complete ∷ []) ≡ some (flushed, sent last)
unfolding flush send_request put_batch put_messages put_entries put_entry reset
flushes = rw (flush, compile_batch-entry) refl

flush-delivers_example :
    (es : List Entry) × Holds services (one ∷ two ∷ []) es × Accounts delivered last es
flush-delivers_example =
    flush-delivers services worker flushed batch (some complete ∷ []) last fits tt answered flushes
  where
    answered :
        (es : List Entry) (c : Compiler services)
        → compile_batch services compiler (one ∷ two ∷ []) ≡ some (request es, c)
        → Answers es (some complete ∷ [])
    answered es c e =
        let same : entry ∷ [] ≡ es = cc (e, compile_batch-entry) in
        subst (λ l. Answers l (some complete ∷ [])) same
          (record { each = refl; counted = unfold error_count in refl }, λ failed e'. tt)

flush_ends_example : flush services worker batch (some partial ∷ some complete ∷ []) ≢ none
flush_ends_example = flush_ends services worker batch (some partial ∷ []) complete [] fits refl

flush-releases_example :
    (flushed.message_pool ≡ reverse batch.messages ++ worker.message_pool)
    × (flushed.batch_pool ≡ empty ∷ worker.batch_pool)
flush-releases_example =
    flush-releases services worker flushed batch (some complete ∷ []) (sent last) (λ e. cc e)
      flushes

abbrev aggregator : Aggregator
aggregator = record { current_batch = batch; last_send = 0; batch_pool = []; output_chan = [] }

aggregator-IsSound : IsSound aggregator
aggregator-IsSound = record { current = (batch-IsValid, batch-IsCounted); pool = tt; sent = tt }

aggregate-IsSound_example :
    IsSound (aggregate 2 aggregator (message 1 one ∷ tick 9 ∷ closed 10 ∷ []))
aggregate-IsSound_example =
    aggregate-IsSound 2 aggregator (message 1 one ∷ tick 9 ∷ closed 10 ∷ []) aggregator-IsSound

smalls : All IsSmall (received (message 1 one ∷ tick 9 ∷ closed 10 ∷ []))
unfolding received message_proto_size
smalls = (omega arith, tt)

aggregate_drains_example :
    messages_of (aggregate 2 aggregator (message 1 one ∷ tick 9 ∷ closed 10 ∷ [])).output_chan
    ≡ taken aggregator ++ received (message 1 one ∷ tick 9 ∷ closed 10 ∷ [])
aggregate_drains_example =
    aggregate_drains 2 aggregator (message 1 one ∷ tick 9 ∷ []) 10 aggregator-IsSound smalls

-- A compressor that stores its input makes it larger.
abbrev store : List ℕ → Message
store bytes = 0 ∷ bytes

abbrev largest : List ℕ
largest = replicate 51141 5

put_hangs_example :
    (put store [] largest ≡ enqueued (store largest ∷ []))
    × (compile_loop services 9 compiler (one ∷ store largest ∷ two ∷ []) [] ≡ none)
put_hangs_example =
    put_hangs services (λ b a. (b ++ replicate (aggregate_size a) 7, refl)) store [] largest 9
      compiler (one ∷ []) (two ∷ []) [] (omega (arith, length-replicate {A = ℕ} 51141 5))
      (omega (arith, length-replicate {A = ℕ} 51141 5))
