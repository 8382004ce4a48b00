-- ===== src/Producer/Compile/Sizes.antt =====
-- The bytes of a compiled request: each entry keeps to the limit of a Kinesis record, and the whole
-- request is exactly as large as the batch counted.
use guidance_for_building_a.Common.{
  ℕ, zero, suc, ◌+◌, ◌*◌, ◌≤◌, ◌<◌, ◌≡◌, refl, ap, sym, List, [], ◌∷◌, ◌++◌, Option, none, some,
  length, drop, map, sum, sum-append, map-append, All, All-append, All-drop, Option-cases, inl, inr,
  length-append, arith,
}
use guidance_for_building_a.Producer.Size.{
  Message, message_proto_size, max_entry_size, max_request_size, max_entries_per_request,
  entry_metadata_size, magic_number,
}
use guidance_for_building_a.Producer.Wire.{
  Record, AggregatedRecord, record_size, delimited_size, aggregate_size, message_proto_size-wire,
  record_metadata_size-wire,
}
use guidance_for_building_a.Producer.Batch.{Batch, request_total_size}
use guidance_for_building_a.Producer.Batch.Limits.{IsValid, entries-lt-max}
use guidance_for_building_a.Producer.Compile.{
  Services, IsDocumented, Compiler, Entry, Fits, request, gather, get_entry, put_entry,
  aggregate_of, finish_entry, compile_messages, compile_loop, compile_batch,
}
use guidance_for_building_a.Producer.Compile.Termination.{compile_messages_count}
use guidance_for_building_a.Producer.Compile.Entries.{IsCounted, length-compile_batch}

-- The message bytes of some records, by the wire format.
abbrev records_size : List Record → ℕ
records_size rs = sum (map (λ r. delimited_size (record_size r)) rs)

abbrev messages_size : List Message → ℕ
messages_size ms = sum (map message_proto_size ms)

Fits-short : (m : Message) → Fits m → length m + 6 < 2097152
unfolding message_proto_size
Fits-short m h = ground arith

wire :
    (m : Message)
    → Fits m
    → delimited_size (record_size (record { partition_key_index = 0; payload = m }))
      ≡ message_proto_size m
wire m h = sym (message_proto_size-wire m (Fits-short m h))

gather-within :
    (size : ℕ) (ms : List Message)
    → All Fits ms
    → size ≤ max_entry_size
    → size + records_size (gather size ms) ≤ max_entry_size
unfolding gather
gather-within size [] fits h = omega arith
gather-within size (m ∷ ms) fits h =
    ground (arith, gather-within (size + message_proto_size m) ms fits.1, wire m fits.0)

gather-rest :
    (size : ℕ) (ms : List Message)
    → All Fits ms
    → records_size (gather size ms) + messages_size (drop (length (gather size ms)) ms)
      ≡ messages_size ms
unfolding gather
gather-rest size [] fits = refl
gather-rest size (m ∷ ms) fits =
    ground (arith, gather-rest (size + message_proto_size m) ms fits.1, wire m fits.0)

-- Entries in the pool have no data left.
abbrev pub IsClean : List Entry → Type 0
IsClean = All λ e. e.bytes ≡ []

pub put_entry-IsClean : (pool : List Entry) (e : Entry) → IsClean pool → IsClean (put_entry pool e)
unfolding put_entry
put_entry-IsClean pool e h = (refl, h)

pub get_entry-IsClean :
    (pool : List Entry)
    → IsClean pool
    → ((get_entry pool).0.bytes ≡ []) × IsClean (get_entry pool).1
unfolding get_entry
get_entry-IsClean [] h = (refl, tt)
get_entry-IsClean (e ∷ pool) h = h

-- What an entry counts for in a request: its data and its partition key.
abbrev key_size : Option (List ℕ) → ℕ
key_size none = 0
key_size (some key) = length key

abbrev pub entry_bytes : Entry → ℕ
entry_bytes e = length e.bytes + key_size e.partition_key

abbrev pub request_bytes : List Entry → ℕ
request_bytes es = sum (map entry_bytes es)

request_bytes_snoc :
    (es : List Entry) (e : Entry) → request_bytes (es ++ e ∷ []) ≡ request_bytes es + entry_bytes e
request_bytes_snoc es e =
    rw map-append (omega (arith, sum-append (map entry_bytes es) (entry_bytes e ∷ [])))

pub compile_messages-IsClean :
    (s : Services) (c : Compiler s) (ms : List Message)
    → IsClean c.entry_pool
    → IsClean (compile_messages s c ms).1.entry_pool
unfolding compile_messages
compile_messages-IsClean s c ms clean = ground (
  arith,
  get_entry-IsClean c.entry_pool clean,
  put_entry-IsClean (get_entry c.entry_pool).1 (get_entry c.entry_pool).0,
)

module _ (s : Services) (doc : IsDocumented s) where
  aggregate_of-size :
      (key : List ℕ) (ms : List Message)
      → length key ≡ 27
      → aggregate_size (aggregate_of key ms) ≡ 29 + records_size (gather entry_metadata_size ms)
  unfolding aggregate_size
  aggregate_of-size key ms h = omega (arith, record_metadata_size-wire key h)

  compile_messages-size :
      (c : Compiler s) (ms : List Message) (n : ℕ) (e : Entry)
      → IsClean c.entry_pool
      → (compile_messages s c ms).0 ≡ some (n, e)
      → (length e.bytes ≡ entry_metadata_size + records_size (gather entry_metadata_size ms))
        × (key_size e.partition_key ≡ 27)
        × IsClean (compile_messages s c ms).1.entry_pool
  unfolding compile_messages
  compile_messages-size c ms n e clean h =
      elim (Option-cases (s.marshal_append ((get_entry c.entry_pool).0.bytes ++ magic_number) a)) [
        | inl f ↦ cc (rw (f, compile_messages) at h)
        | inr (out, f) ↦
            let h' = rw (f, compile_messages) at h in
            let made : finish_entry s key out ≡ e = cc h' in
            rw (f, compile_messages, ← made)
              (
                omega (
                  arith,
                  length-append out (s.md5 (drop (length magic_number) out)),
                  doc.md5_length (drop (length magic_number) out),
                  doc.marshal_length _ a out f,
                  length-append (get_entry c.entry_pool).0.bytes magic_number,
                  ap length (get_entry-IsClean c.entry_pool clean).0,
                  aggregate_of-size key ms (doc.key_length c.keys),
                ),
                doc.key_length c.keys,
                (get_entry-IsClean c.entry_pool clean).1,
              )
      ]
    where
      key : List ℕ
      key = (s.next_key c.keys).0

      a : AggregatedRecord
      a = aggregate_of key ms

  -- The entries of a request that ran to its end.
  compile_loop-size :
      (fuel : ℕ) (c c' : Compiler s) (ms : List Message) (records es : List Entry)
      → All Fits ms
      → IsClean c.entry_pool
      → All (λ e. length e.bytes ≤ max_entry_size) records
      → compile_loop s fuel c ms records ≡ some (request es, c')
      → All (λ e. length e.bytes ≤ max_entry_size) es
        × (request_bytes es + length records * 76
            ≡ request_bytes records + messages_size ms + length es * 76)
        × IsClean c'.entry_pool
  unfolding compile_loop
  compile_loop-size zero c c' ms records es fits clean ok h = cc
  compile_loop-size (suc fuel) c c' [] records es fits clean ok h =
      let er : records ≡ es = cc h in
      let ec : c ≡ c' = cc h in rw (← er, ← ec) (ok, omega arith, clean)
  compile_loop-size (suc fuel) c c' (m ∷ ms) records es fits clean ok h =
      elim (Option-cases (compile_messages s c (m ∷ ms)).0) [
        | inl e ↦ cc (rw (e, compile_loop) at h)
        | inr ((n, entry), e) ↦
            let h' = rw (e, compile_loop) at h in
            let (size, key, clean') = compile_messages-size c (m ∷ ms) n entry clean e in
            let within = gather-within entry_metadata_size (m ∷ ms) fits (omega arith) in
            let left = gather-rest entry_metadata_size (m ∷ ms) fits in
            let count = compile_messages_count s c (m ∷ ms) n entry e in
            let (all, total, clean'') =
              compile_loop-size fuel _ c' (drop n (m ∷ ms)) (records ++ entry ∷ []) es
                (All-drop Fits n (m ∷ ms) fits) clean'
                (All-append _ records (entry ∷ []) ok (omega arith, tt)) h' in
            (
              all,
              omega (
                arith,
                total,
                left,
                size,
                key,
                request_bytes_snoc records entry,
                length-append records (entry ∷ []),
                ap (λ k. messages_size (drop k (m ∷ ms))) count,
              ),
              clean'',
            )
      ]

  compile_batch-size :
      (c c' : Compiler s) (ms : List Message) (es : List Entry)
      → All Fits ms
      → IsClean c.entry_pool
      → compile_batch s c ms ≡ some (request es, c')
      → All (λ e. length e.bytes ≤ max_entry_size) es
        × (request_bytes es ≡ messages_size ms + length es * 76)
        × IsClean c'.entry_pool
  unfolding compile_batch
  compile_batch-size c c' [] es fits clean h = cc
  compile_batch-size c c' (m ∷ ms) es fits clean h =
      let (all, total, clean') =
        compile_loop-size (suc (length (m ∷ ms))) c c' (m ∷ ms) [] es fits clean tt h in
      (all, omega (arith, total), clean')

  -- If the libraries keep to the sizes that they document, the batch is valid and counts its
  -- entries, every message fits in an entry and the pool has empty entries only, then a request
  -- that compiles from it keeps the limits of Kinesis: no record is larger than 51200 bytes, the
  -- request is as large as the batch counted, at most 5 MiB, and it has fewer than 500 records.
  -- The entries left in the pool are empty again.
  pub compile_batch-limits :
      (b : Batch) (c c' : Compiler s) (es : List Entry)
      → IsValid b
      → IsCounted b
      → All Fits b.messages
      → IsClean c.entry_pool
      → compile_batch s c b.messages ≡ some (request es, c')
      → All (λ e. length e.bytes ≤ max_entry_size) es
        × (request_bytes es ≡ request_total_size b)
        × (request_bytes es ≤ max_request_size)
        × (length es < max_entries_per_request)
        × IsClean c'.entry_pool
  unfolding request_total_size
  compile_batch-limits b c c' es valid counted fits clean h =
      let (all, total, clean') = compile_batch-size c c' b.messages es fits clean h in
      let count = length-compile_batch s b c c' es counted fits h in
      (
        all,
        omega (arith, total, count, valid.counted),
        omega (arith, total, count, valid.counted, valid.within),
        omega (arith, count, entries-lt-max valid),
        clean',
      )
