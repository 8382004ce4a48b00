-- ===== src/Producer/Compile/Entries.antt =====
-- How messages fill entries: the batch counts it message by message, the compiler entry by entry,
-- and both come to the same number of entries.
use native.Mathlib.Nat.{add_assoc}
use guidance_for_building_a.Common.{
  ℕ, zero, suc, ◌+◌, ◌≡◌, refl, ap, sym, ◌∙◌, List, [], ◌∷◌, ◌++◌, some, length, drop, All,
  All-drop, Option-cases, Bool-cases, inl, inr, ltb, if◌then◌else◌, length-append, arith, true,
  false,
}
use guidance_for_building_a.Producer.Size.{
  Message, message_proto_size, max_entry_size, entry_metadata_size,
}
use guidance_for_building_a.Producer.Batch.{Batch, empty, try_add_message}
use guidance_for_building_a.Producer.Compile.{
  Services, Compiler, Entry, Fits, request, gather, compile_messages, compile_loop, compile_batch,
}
use guidance_for_building_a.Producer.Compile.Termination.{compile_messages_count}

-- The entries opened after the first one, and the message bytes of the last.
pub record Fill : Type 0 where
  pub opened : ℕ
  pub size : ℕ

unfoldable pub place : Fill → Message → Fill
place f m =
    if ltb max_entry_size (message_proto_size m + (entry_metadata_size + f.size))
    then record { opened = f.opened + 1; size = message_proto_size m }
    else record { opened = f.opened; size = f.size + message_proto_size m }

unfoldable pub fill : Fill → List Message → Fill
fill f [] = f
fill f (m ∷ ms) = fill (place f m) ms

fill-snoc :
    (f : Fill) (ms : List Message) (m : Message) → fill f (ms ++ m ∷ []) ≡ place (fill f ms) m
unfolding fill
fill-snoc f [] m = refl
fill-snoc f (x ∷ ms) m = fill-snoc (place f x) ms m

-- The counters of the batch are those of its messages placed one after the other.
abbrev pub IsCounted : Batch → Type 0
IsCounted b =
    fill (record { opened = 0; size = 0 }) b.messages
    ≡ record { opened = b.entry_number; size = b.entry_message_size }

pub empty-IsCounted : IsCounted empty
unfolding fill
empty-IsCounted = refl

pub try_add_message-IsCounted :
    (b : Batch) (m : Message) → IsCounted b → IsCounted (try_add_message b m).0
unfolding try_add_message place
try_add_message-IsCounted b m h =
    ground (arith, fill-snoc (record { opened = 0; size = 0 }) b.messages m)

-- The number of entries once the messages that are left stand in entries of their own.
abbrev pub entries_left : ℕ → List Message → ℕ
entries_left n [] = n
entries_left n (m ∷ ms) = (fill (record { opened = n; size = 0 }) (m ∷ ms)).opened + 1

place_room :
    (n q : ℕ) (m : Message)
    → ltb max_entry_size (message_proto_size m + (entry_metadata_size + q)) ≡ false
    → place (record { opened = n; size = q }) m
      ≡ record { opened = n; size = q + message_proto_size m }
unfolding place
place_room n q m h = rw h

place-fresh :
    (n q : ℕ) (m : Message)
    → Fits m
    → ltb max_entry_size (message_proto_size m + (entry_metadata_size + q)) ≡ true
    → place (record { opened = n; size = q }) m ≡ place (record { opened = n + 1; size = 0 }) m
unfolding place
place-fresh n q m fits h = ground arith

fill-gather :
    (n q : ℕ) (ms : List Message)
    → All Fits ms
    → (fill (record { opened = n; size = q }) ms).opened + 1
      ≡ entries_left (n + 1) (drop (length (gather (entry_metadata_size + q) ms)) ms)
unfolding fill gather
fill-gather n q [] fits = refl
fill-gather n q (m ∷ ms) fits =
    elim (Bool-cases (ltb max_entry_size (message_proto_size m + (entry_metadata_size + q)))) [
      | inl over ↦
          rw (over, gather) (ap (λ f. (fill f ms).opened + 1) (place-fresh n q m fits.0 over))
      | inr room ↦
          rw (room, gather)
            (ap (λ f. (fill f ms).opened + 1) (place_room n q m room)
              ∙ fill-gather n (q + message_proto_size m) ms fits.1
              ∙ ap (λ t. entries_left (n + 1) (drop (length (gather t ms)) ms))
                  (sym (add_assoc entry_metadata_size q (message_proto_size m))))
    ]

module _ (s : Services) where
  compile_loop_entries :
      (fuel : ℕ) (c c' : Compiler s) (ms : List Message) (records es : List Entry)
      → All Fits ms
      → compile_loop s fuel c ms records ≡ some (request es, c')
      → length es ≡ entries_left (length records) ms
  unfolding compile_loop
  compile_loop_entries zero c c' ms records es fits h = cc
  compile_loop_entries (suc fuel) c c' [] records es fits h = ground arith
  compile_loop_entries (suc fuel) c c' (m ∷ ms) records es fits h =
      elim (Option-cases (compile_messages s c (m ∷ ms)).0) [
        | inl e ↦ cc (rw (e, compile_loop) at h)
        | inr ((n, entry), e) ↦
            let h' = rw (e, compile_loop) at h in
            let count = compile_messages_count s c (m ∷ ms) n entry e in
            let rest =
              compile_loop_entries fuel _ c' (drop n (m ∷ ms)) (records ++ entry ∷ []) es
                (All-drop Fits n (m ∷ ms) fits) h' in
            rest
            ∙ ap (λ k. entries_left k (drop n (m ∷ ms))) (length-append records (entry ∷ []))
            ∙ ap (λ k. entries_left (length records + 1) (drop k (m ∷ ms))) count
            ∙ sym (fill-gather (length records) 0 (m ∷ ms) fits)
      ]

  -- If the batch counts its entries and every message fits in an entry, a request compiled from it
  -- has as many entries as the batch counted.
  pub length-compile_batch :
      (b : Batch) (c c' : Compiler s) (es : List Entry)
      → IsCounted b
      → All Fits b.messages
      → compile_batch s c b.messages ≡ some (request es, c')
      → length es ≡ b.entry_number + 1
  unfolding compile_batch
  length-compile_batch b c c' es counted fits h = count b.messages fits h counted
    where
      count :
          (ms : List Message)
          → All Fits ms
          → compile_batch s c ms ≡ some (request es, c')
          → fill (record { opened = 0; size = 0 }) ms
            ≡ record { opened = b.entry_number; size = b.entry_message_size }
          → length es ≡ b.entry_number + 1
      count [] f g k = cc
      count (m ∷ ms) f g k =
          compile_loop_entries _ c c' (m ∷ ms) [] es f g ∙ ap (λ (f : Fill). f.opened + 1) k
