-- ===== src/Producer/Compile/Contents.antt =====
-- What the entries of a compiled request hold: all the messages of the batch, once and in order.
use guidance_for_building_a.Common.{
  ℕ, zero, suc, ◌+◌, ◌≤◌, ◌≡◌, refl, ap, sym, ◌∙◌, List, [], ◌∷◌, ◌++◌, some, length, take, drop,
  map, All, All-drop, take-append-drop, Option-cases, inl, inr, append_assoc, append-nil, arith,
  length-take,
}
use guidance_for_building_a.Producer.Size.{
  Message, message_proto_size, entry_metadata_size, magic_number,
}
use guidance_for_building_a.Producer.Wire.{AggregatedRecord}
use guidance_for_building_a.Producer.Compile.{
  Services, Compiler, Entry, Fits, request, gather, get_entry, aggregate_of, finish_entry,
  compile_messages, compile_loop, compile_batch,
}
use guidance_for_building_a.Producer.Compile.Termination.{
  compile_messages_count, gather_some, length-gather-le,
}
use guidance_for_building_a.Producer.Compile.Sizes.{
  IsClean, get_entry-IsClean, compile_messages-IsClean,
}

-- The aggregate that holds the messages `chunk` under one key.
abbrev pub holding : List ℕ → List Message → AggregatedRecord
holding key chunk = record {
  partition_key_table = key ∷ [];
  records = map (λ m. record { partition_key_index = 0; payload = m }) chunk;
}

gather-take :
    (size : ℕ) (ms : List Message)
    → gather size ms
      ≡ map
          (λ m. record { partition_key_index = 0; payload = m })
          (take (length (gather size ms)) ms)
unfolding gather
gather-take size [] = refl
gather-take size (m ∷ ms) = ground (arith, gather-take (size + message_proto_size m) ms)

module _ (s : Services) where
  -- Entry `e` is the magic number, the marshalled messages `chunk`, and their checksum.
  pub data IsEntry (chunk : List Message) (e : Entry) : Type 0 where
    is_entry :
        (key out : List ℕ)
        → s.marshal_append magic_number (holding key chunk) ≡ some out
        → e.bytes ≡ out ++ s.md5 (drop (length magic_number) out)
        → e.partition_key ≡ some key
        → IsEntry chunk e

  -- The entries hold the messages in order, each entry at least one.
  abbrev pub Holds : List Message → List Entry → Type 0
  Holds ms [] = ms ≡ []
  Holds ms (e ∷ es) =
      (chunk rest : List Message) × (ms ≡ chunk ++ rest)
      × (1 ≤ length chunk)
      × IsEntry chunk e
      × Holds rest es

  compile_messages-IsEntry :
      (c : Compiler s) (ms : List Message) (n : ℕ) (e : Entry)
      → IsClean c.entry_pool
      → (compile_messages s c ms).0 ≡ some (n, e)
      → IsEntry (take n ms) e
  unfolding compile_messages
  compile_messages-IsEntry c ms n e clean h =
      elim (Option-cases (s.marshal_append ((get_entry c.entry_pool).0.bytes ++ magic_number) a)) [
        | inl f ↦ cc (rw (f, compile_messages) at h)
        | inr (out, f) ↦
            let h' = rw (f, compile_messages) at h in
            let made : finish_entry s key out ≡ e = cc h' in
            let count : length (gather entry_metadata_size ms) ≡ n = cc h' in
            let f' = rw (get_entry-IsClean c.entry_pool clean).0 at f in
            is_entry key out
              (ap
                  (λ rs.
                    s.marshal_append magic_number
                      (record { partition_key_table = key ∷ []; records = rs }))
                  (rw (← count) (sym (gather-take entry_metadata_size ms)))
                ∙ f')
              (ap (λ (x : Entry). x.bytes) (sym made))
              (ap (λ (x : Entry). x.partition_key) (sym made))
      ]
    where
      key : List ℕ
      key = (s.next_key c.keys).0

      a : AggregatedRecord
      a = aggregate_of key ms

  compile_loop-Holds :
      (fuel : ℕ) (c c' : Compiler s) (ms : List Message) (records es : List Entry)
      → All Fits ms
      → IsClean c.entry_pool
      → compile_loop s fuel c ms records ≡ some (request es, c')
      → (added : List Entry) × (es ≡ records ++ added) × Holds ms added
  unfolding compile_loop
  compile_loop-Holds zero c c' ms records es fits clean h = cc
  compile_loop-Holds (suc fuel) c c' [] records es fits clean h =
      let er : records ≡ es = cc h in ([], sym er ∙ sym (append-nil records), refl)
  compile_loop-Holds (suc fuel) c c' (m ∷ ms) records es fits clean h =
      elim (Option-cases (compile_messages s c (m ∷ ms)).0) [
        | inl e ↦ cc (rw (e, compile_loop) at h)
        | inr ((n, entry), e) ↦
            let h' = rw (e, compile_loop) at h in
            let count = compile_messages_count s c (m ∷ ms) n entry e in
            let (added, same, holds) =
              compile_loop-Holds fuel _ c' (drop n (m ∷ ms)) (records ++ entry ∷ []) es
                (All-drop Fits n (m ∷ ms) fits) (compile_messages-IsClean s c (m ∷ ms) clean) h' in
            (
              entry ∷ added,
              same ∙ append_assoc records (entry ∷ []) added,
              (
                take n (m ∷ ms),
                drop n (m ∷ ms),
                sym (take-append-drop n (m ∷ ms)),
                omega (
                  arith,
                  count,
                  gather_some m ms fits.0,
                  length-take n (m ∷ ms),
                  length-gather-le entry_metadata_size (m ∷ ms),
                ),
                compile_messages-IsEntry c (m ∷ ms) n entry clean e,
                holds,
              ),
            )
      ]

  -- If every message fits in an entry, the entry pool has empty entries only and compiling the
  -- messages gives a request, then its entries hold the messages in order, each in exactly one
  -- entry and no entry without any: the bytes of an entry are the magic number with the marshalled
  -- aggregate of its messages, and the MD5 sum of that aggregate; its partition key is the one of
  -- the aggregate.
  pub compile_batch-Holds :
      (c c' : Compiler s) (ms : List Message) (es : List Entry)
      → All Fits ms
      → IsClean c.entry_pool
      → compile_batch s c ms ≡ some (request es, c')
      → Holds ms es
  unfolding compile_batch
  compile_batch-Holds c c' [] es fits clean h = cc
  compile_batch-Holds c c' (m ∷ ms) es fits clean h =
      let (added, same, holds) =
        compile_loop-Holds (suc (length (m ∷ ms))) c c' (m ∷ ms) [] es fits clean h in
      rw same holds
