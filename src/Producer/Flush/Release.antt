-- ===== src/Producer/Flush/Release.antt =====
-- What a flush leaves behind.
use guidance_for_building_a.Common.{
  ◌≡◌, ◌≢◌, refl, ◌∙◌, sym, ap, append_assoc, List, [], ◌∷◌, ◌++◌, Option, none, some, All,
  Option-cases, inl, inr, arith,
}
use guidance_for_building_a.Producer.Size.{Message}
use mathlib.Core.List.{reverse, reverse-cons}
use guidance_for_building_a.Producer.Batch.{Batch, empty, reset}
use guidance_for_building_a.Producer.Compile.{
  Services, Compiler, Compiled, Entry, Fits, nothing, failed, request, put_entries, compile_batch,
}
use guidance_for_building_a.Producer.Compile.Termination.{compile_batch_ends, compile_batch_nothing}
use guidance_for_building_a.Producer.Compile.Sizes.{IsClean, put_entry-IsClean}
use guidance_for_building_a.Producer.Compile.Contents.{Holds, compile_batch-Holds}
use guidance_for_building_a.Producer.Send.{Output, Sent, send_request}
use guidance_for_building_a.Producer.Send.Delivery.{
  Answers, Accounts, send_request-Accounts, send_request_ends,
}
use guidance_for_building_a.Producer.Flush.{Worker, Flushed, sent, put_batch, put_messages, flush}

put_entries-IsClean : (pool es : List Entry) → IsClean pool → IsClean (put_entries pool es)
unfolding put_entries
put_entries-IsClean pool [] h = h
put_entries-IsClean pool (e ∷ es) h = put_entries-IsClean _ es (put_entry-IsClean pool e h)

put_messages_lem : (pool ms : List Message) → put_messages pool ms ≡ reverse ms ++ pool
unfolding put_messages
put_messages_lem pool [] = refl
put_messages_lem pool (m ∷ ms) =
    put_messages_lem (m ∷ pool) ms
    ∙ sym (append_assoc (reverse ms) (m ∷ []) pool)
    ∙ ap (λ l. l ++ pool) (sym (reverse-cons m ms))

module _ (s : Services) where
  -- Whatever came of compiling and sending it, a flush of a batch with messages, if it returns, has put
  -- back each of the messages, once, on top of the message pool and nothing else, and the batch, as
  -- empty as a new one, on top of the batch pool.
  pub flush-releases :
      (w w' : Worker s) (b : Batch) (outs : List (Option Output)) (f : Flushed)
      → b.messages ≢ []
      → flush s w b outs ≡ some (w', f)
      → (w'.message_pool ≡ reverse b.messages ++ w.message_pool)
        × (w'.batch_pool ≡ empty ∷ w.batch_pool)
  unfolding flush
  flush-releases w w' b outs f some_left h =
      let released : (w'.message_pool ≡ put_messages w.message_pool b.messages)
          × (w'.batch_pool ≡ put_batch w.batch_pool b) =
        ground arith in
      (
        released.0 ∙ put_messages_lem w.message_pool b.messages,
        released.1 ∙ (unfold put_batch reset in refl),
      )

  -- If every message fits in an entry, the entry pool has empty entries only and the answers of
  -- Kinesis are ones to the requests it gets, then a flush that has sent the batch compiled it to
  -- entries that hold its messages. Where the call ended well, each of these is stored exactly
  -- once; where the client refused, those stored and those still held are all of them, none twice;
  -- it did not panic.
  pub flush-delivers :
      (w w' : Worker s) (b : Batch) (outs : List (Option Output)) (t : Sent)
      → All Fits b.messages
      → IsClean w.compiler.entry_pool
      → ((es : List Entry) (c : Compiler s)
          → compile_batch s w.compiler b.messages ≡ some (request es, c)
          → Answers es outs)
      → flush s w b outs ≡ some (w', sent t)
      → (es : List Entry) × Holds s b.messages es × Accounts t.ending t es
  unfolding flush
  flush-delivers w w' b outs t fits clean answers h =
      elim (Option-cases (compile_batch s w.compiler b.messages)) [
        | inl e ↦ absurd (ground arith)
        | inr ((nothing, c), e) ↦ absurd (ground arith)
        | inr ((failed, c), e) ↦ absurd (ground arith)
        | inr ((request es, c), e) ↦
            let sends : send_request 0 es outs ≡ some t = ground arith in
            (
              es,
              compile_batch-Holds s w.compiler c b.messages es fits clean e,
              send_request-Accounts 0 es outs t (answers es c e) sends,
            )
      ]

  -- If every message fits in an entry and one of the answers of the client has no failures, a
  -- flush returns.
  pub flush_ends :
      (w : Worker s) (b : Batch) (pre : List (Option Output)) (out : Output)
      (post : List (Option Output))
      → All Fits b.messages
      → out.failed_record_count ≡ 0
      → flush s w b (pre ++ some out ∷ post) ≢ none
  unfolding flush
  flush_ends w b pre out post fits h e =
      let ((compiled, c), r) = compile_batch_ends s w.compiler b.messages fits in go compiled c r
    where
      go :
          (compiled : Compiled) (c : Compiler s)
          → compile_batch s w.compiler b.messages ≡ some (compiled, c)
          → ⊥
      go nothing c r = ground (arith, compile_batch_nothing s w.compiler c b.messages r)
      go failed c r = ground arith
      go (request es) c r = ground (arith, send_request_ends 0 es pre out post h)
