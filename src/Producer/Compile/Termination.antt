-- ===== src/Producer/Compile/Termination.antt =====
-- When the loop of `compileBatch` ends: each round must take a message.
use guidance_for_building_a.Common.{
  ℕ, zero, suc, ◌+◌, ◌≤◌, ◌<◌, ◌≡◌, ◌≢◌, refl, List, [], ◌∷◌, ◌++◌, none, some, length, drop, All,
  All-drop, length-drop, drop_append_le, arith, Option-cases, inl, inr,
}
use guidance_for_building_a.Producer.Size.{
  Message, message_proto_size, max_entry_size, entry_metadata_size, magic_number,
}
use guidance_for_building_a.Producer.Compile.{
  Services, nothing, Marshals, Compiler, Compiled, Entry, Fits, gather, get_entry, compile_messages,
  aggregate_of, finish_entry, compile_loop, compile_batch,
}

pub gather_some :
    (m : Message) (ms : List Message) → Fits m → 1 ≤ length (gather entry_metadata_size (m ∷ ms))
unfolding gather
gather_some m ms h = ground arith

pub length-gather-le : (size : ℕ) (ms : List Message) → length (gather size ms) ≤ length ms
unfolding gather
length-gather-le size [] = omega arith
length-gather-le size (m ∷ ms) = ground (arith, length-gather-le (size + message_proto_size m) ms)

-- Gathering stops before a message that does not fit in any entry.
gather_stops :
    (size : ℕ) (pre : List Message) (m : Message) (post : List Message)
    → entry_metadata_size ≤ size
    → max_entry_size < message_proto_size m + entry_metadata_size
    → length (gather size (pre ++ m ∷ post)) ≤ length pre
unfolding gather
gather_stops size [] m post h big = ground arith
gather_stops size (p ∷ pre) m post h big =
    ground (arith, gather_stops (size + message_proto_size p) pre m post)

module _ (s : Services) where
  pub compile_messages_count :
      (c : Compiler s) (ms : List Message) (n : ℕ) (e : Entry)
      → (compile_messages s c ms).0 ≡ some (n, e)
      → n ≡ length (gather entry_metadata_size ms)
  unfolding compile_messages
  compile_messages_count c ms n e h = ground arith

  compile_loop_ends :
      (fuel : ℕ) (c : Compiler s) (ms : List Message) (records : List Entry)
      → length ms < fuel
      → All Fits ms
      → (r : Compiled × Compiler s) × (compile_loop s fuel c ms records ≡ some r)
  unfolding compile_loop
  compile_loop_ends zero c ms records h fits = elim h [ ]
  compile_loop_ends (suc fuel) c [] records h fits = (_, refl)
  compile_loop_ends (suc fuel) c (m ∷ ms) records h fits =
      elim (Option-cases (compile_messages s c (m ∷ ms)).0) [
        | inl e ↦ rw (e, compile_loop) (_, refl)
        | inr ((n, entry), e) ↦
            rw (e, compile_loop)
              (compile_loop_ends fuel _ (drop n (m ∷ ms)) _
                (omega (
                  arith,
                  length-drop n (m ∷ ms),
                  compile_messages_count c (m ∷ ms) n entry e,
                  gather_some m ms fits.0,
                ))
                (All-drop Fits n (m ∷ ms) fits))
      ]

  -- If every message of the batch fits in an entry, compiling the batch ends.
  pub compile_batch_ends :
      (c : Compiler s) (ms : List Message)
      → All Fits ms
      → (r : Compiled × Compiler s) × (compile_batch s c ms ≡ some r)
  unfolding compile_batch
  compile_batch_ends c [] fits = (_, refl)
  compile_batch_ends c (m ∷ ms) fits =
      compile_loop_ends (suc (length (m ∷ ms))) c (m ∷ ms) [] (omega arith) fits

  compile_loop_request :
      (fuel : ℕ) (c c' : Compiler s) (ms : List Message) (records : List Entry)
      → compile_loop s fuel c ms records ≢ some (nothing, c')
  unfolding compile_loop
  compile_loop_request zero c c' ms records h = cc
  compile_loop_request (suc fuel) c c' [] records h = cc
  compile_loop_request (suc fuel) c c' (m ∷ ms) records h =
      elim (Option-cases (compile_messages s c (m ∷ ms)).0) [
        | inl e ↦ cc (rw (e, compile_loop) at h)
        | inr ((n, entry), e) ↦
            compile_loop_request fuel _ c' (drop n (m ∷ ms)) _ (rw (e, compile_loop) at h)
      ]

  -- Only a batch without messages compiles to no request.
  pub compile_batch_nothing :
      (c c' : Compiler s) (ms : List Message) → compile_batch s c ms ≡ some (nothing, c') → ms ≡ []
  unfolding compile_batch
  compile_batch_nothing c c' [] h = refl
  compile_batch_nothing c c' (m ∷ ms) h =
      absurd (compile_loop_request (suc (length (m ∷ ms))) c c' (m ∷ ms) [] h)

  compile_messages-some :
      Marshals s
      → (c : Compiler s) (ms : List Message)
      → (n : ℕ) × (e : Entry) × ((compile_messages s c ms).0 ≡ some (n, e))
  unfolding compile_messages
  compile_messages-some marshals c ms =
      let key = (s.next_key c.keys).0 in
      let (out, e) =
        marshals ((get_entry c.entry_pool).0.bytes ++ magic_number) (aggregate_of key ms) in
      (length (gather entry_metadata_size ms), finish_entry s key out, rw (e, compile_messages))

  -- A message that fits in no entry, wherever it stands in the batch, keeps the loop from ending,
  -- however many rounds it runs.
  pub compile_loop_hangs :
      Marshals s
      → (fuel : ℕ) (c : Compiler s) (pre : List Message) (m : Message) (post : List Message)
        (records : List Entry)
      → max_entry_size < message_proto_size m + entry_metadata_size
      → compile_loop s fuel c (pre ++ m ∷ post) records ≡ none
  unfolding compile_loop
  compile_loop_hangs marshals zero c pre m post records big = refl
  compile_loop_hangs marshals (suc fuel) c [] m post records big =
      let (n, entry, e) = compile_messages-some marshals c (m ∷ post) in
      let stops : n ≡ 0 = omega (
        arith,
        compile_messages_count c (m ∷ post) n entry e,
        gather_stops entry_metadata_size [] m post (omega arith) big,
      ) in
      rw (e, compile_loop) (rw stops (compile_loop_hangs marshals fuel _ [] m post _ big))
  compile_loop_hangs marshals (suc fuel) c (p ∷ pre) m post records big =
      let (n, entry, e) = compile_messages-some marshals c (p ∷ pre ++ m ∷ post) in
      let stops : n ≤ length (p ∷ pre) = omega (
        arith,
        compile_messages_count c (p ∷ pre ++ m ∷ post) n entry e,
        gather_stops entry_metadata_size (p ∷ pre) m post (omega arith) big,
      ) in
      rw (e, compile_loop, drop_append_le n (p ∷ pre) (m ∷ post) stops)
        (compile_loop_hangs marshals fuel _ (drop n (p ∷ pre)) m post _ big)
