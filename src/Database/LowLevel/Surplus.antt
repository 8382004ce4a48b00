-- ===== src/Database/LowLevel/Surplus.antt =====
-- How many audiences the low-level query reads.
use guidance_for_building_a.Common.{
  ℕ, zero, suc, ◌+◌, ◌*◌, ◌/◌, ◌%◌, ◌≤◌, ◌≡◌, refl, ap, sym, ◌∙◌, List, [], ◌∷◌, ◌++◌, append_assoc,
  append-nil, Option, none, some, All, length, length-append, copy, copy-take, length-copy,
  take-append, drop-append, drop, length-drop, ◌-◌, ltb, ◌==◌, if◌then◌else◌, length-replicate,
  length-take, Bool-cases, inl, inr, arith,
}
use guidance_for_building_a.Id.{ItemId, len, zero_id}
use guidance_for_building_a.Api.{Error}
use guidance_for_building_a.Database.Devices.{
  each_audience, unmarshall_audiences, each_audience-suc, each_audience-concat, concat,
}
use guidance_for_building_a.Database.LowLevel.{
  Base64, Body, decoded_len, resize_buffer, overwrite, read_audiences, parse_response, answered,
  get_device,
}

-- What base64 documents.
pub record IsBase64 (base64 : Base64) : Type 0 where
  pub round : (bytes : List ℕ) → base64.decode (base64.encode bytes) ≡ (bytes, none)
  -- with the padding
  pub encoded_length : (bytes : List ℕ) → length (base64.encode bytes) ≡ (length bytes + 2) / 3 * 4

-- 16 bytes for each identifier.
length-concat :
    (is : List ItemId)
    → All (λ (i : ItemId). length i ≡ len) is
    → length (concat is) ≡ 16 * length is
length-concat [] h = refl
length-concat (i ∷ is) h = omega (arith, length-append i (concat is), h.0, length-concat is h.1)

empty_of : (xs : List ℕ) → length xs ≡ 0 → xs ≡ []
empty_of [] e = refl
empty_of (x ∷ xs) e = absurd (omega arith)

each_audience_nil :
    (fuel : ℕ) (id : ItemId) (result : List ItemId) → each_audience fuel id [] result ≡ result
unfolding each_audience
each_audience_nil zero id result = refl
each_audience_nil (suc fuel) id result = refl

-- Fewer than 16 bytes after the identifiers, one at least, are read as one more.
each_audience-surplus :
    (fuel : ℕ) (id : ItemId) (is result : List ItemId) (x : ℕ) (xs : List ℕ)
    → length id ≡ len
    → All (λ (i : ItemId). length i ≡ len) is
    → length xs ≤ 15
    → length (concat is ++ x ∷ xs) ≤ fuel
    → (i : ItemId) × (each_audience fuel id (concat is ++ x ∷ xs) result ≡ result ++ (is ++ i ∷ []))
      × (length i ≡ len)
each_audience-surplus zero id is result x xs e h short enough =
    absurd (omega (arith, length-append (concat is) (x ∷ xs), enough))
each_audience-surplus (suc fuel) id [] result x xs e h short enough =
    let i = copy id (x ∷ xs) in
    let last : drop len (x ∷ xs) ≡ [] =
      empty_of (drop len (x ∷ xs)) (omega (arith, length-drop len (x ∷ xs), short)) in
    (
      i,
      each_audience-suc fuel id (x ∷ xs) result i [] (omega arith) refl last
          ∙ each_audience_nil fuel i (result ++ i ∷ []),
      length-copy id (x ∷ xs) ∙ e,
    )
each_audience-surplus (suc fuel) id (j ∷ is) result x xs e h short enough =
    let rest : List ℕ = concat is ++ x ∷ xs in
    let bytes : List ℕ = j ++ rest in
    let split : (j ++ concat is) ++ x ∷ xs ≡ bytes = append_assoc j (concat is) (x ∷ xs) in
    let size = length-append j rest in
    let whole : length ((j ++ concat is) ++ x ∷ xs) ≡ length bytes = ap length split in
    let (i, eq, l) =
      each_audience-surplus fuel j is (result ++ j ∷ []) x xs h.0 h.1 short
        (omega (arith, size, whole, h.0, enough)) in
    (
      i,
      ap (λ b. each_audience (suc fuel) id b result) split
          ∙ each_audience-suc fuel id bytes result j rest (omega (arith, size, h.0))
              (copy-take id bytes (omega (arith, size, h.0, e))
                ∙ take-append j rest (length id) (omega (arith, h.0, e)))
              (drop-append j rest len h.0)
          ∙ eq
          ∙ append_assoc result (j ∷ []) (is ++ i ∷ []),
      l,
    )

length-resize_buffer : (array : List ℕ) (n : ℕ) → length (resize_buffer array n).1 ≡ n
unfolding resize_buffer
length-resize_buffer array n = elim (Bool-cases (ltb (length array) n)) [
  | inl e ↦ rw e (length-replicate n 0)
  | inr e ↦ rw e (ground (arith, length-take n array, e))
]

-- What is behind the identifiers in the buffer.
unmarshall_audiences-surplus :
    (is result : List ItemId) (tail : List ℕ)
    → All (λ (i : ItemId). length i ≡ len) is
    → length tail ≡ (16 * length is + 2) / 3 * 3 - 16 * length is
    → (more : List ItemId) × (unmarshall_audiences (concat is ++ tail) result
        ≡ result ++ (is ++ more))
      × (length more ≡ (if length is % 3 == 0 then 0 else 1))
unfolding unmarshall_audiences
unmarshall_audiences-surplus is result [] h e = (
  [],
  ap (λ b. each_audience (length b) zero_id b result) (append-nil (concat is))
      ∙ each_audience-concat (length (concat is)) zero_id is result refl h (omega arith)
      ∙ ap (λ l. result ++ l) (sym (append-nil is)),
  ground (arith, e),
)
unmarshall_audiences-surplus is result (x ∷ xs) h e =
    let (i, eq, l) =
      each_audience-surplus (length (concat is ++ x ∷ xs)) zero_id is result x xs refl h
        (omega (arith, e)) (omega arith) in
    (i ∷ [], eq, ground (arith, e))

module _ (base64 : Base64) (law : IsBase64 base64) (message_error : List ℕ → Error) where
  read_audiences-surplus :
      (array : List ℕ) (is result : List ItemId)
      → All (λ (i : ItemId). length i ≡ len) is
      → (more : List ItemId) × ((read_audiences base64 message_error array
            (base64.encode (concat is))
            result).0
          ≡ (result ++ (is ++ more), none))
        × (length more ≡ (if length is % 3 == 0 then 0 else 1))
  unfolding read_audiences
  read_audiences-surplus array is result h =
      let text = base64.encode (concat is) in
      let buffer = (resize_buffer array (decoded_len (length text))).1 in
      let tail = drop (length (concat is)) buffer in
      let (more, eq, l) = unmarshall_audiences-surplus is result tail h (
        omega (
          arith,
          length-drop (length (concat is)) buffer,
          length-resize_buffer array (decoded_len (length text)),
          law.encoded_length (concat is),
          length-concat is h,
        )) in
      (
        more,
        ap
              (λ (d : List ℕ × Option Error).
                let x : List ItemId × Option Error = elim d.1 [
                  | some err ↦ (result, some err)
                  | none ↦ (unmarshall_audiences (overwrite buffer d.0) result, none)
                ] in
                x)
              (law.round (concat is))
            ∙ ap (λ l. (l, none)) eq,
        l,
      )

  -- Where base64 keeps to what it documents and the body has the audiences as the text of identifiers of
  -- 16 bytes, one behind the other: whatever is left in the buffer, the query appends them to the
  -- result in that order and without an error, but with one more identifier behind them unless their
  -- number is a multiple of three.
  pub get_device-surplus :
      (parse : List ℕ → Option Body) (parse_error : Error) (body array : List ℕ)
      (is result : List ItemId)
      → All (λ (i : ItemId). length i ≡ len) is
      → parse body ≡ some (record { message = none; audiences = some (base64.encode (concat is)) })
      → (more : List ItemId) × ((get_device base64 message_error parse parse_error
            (answered body)
            array
            result).0
          ≡ (result ++ (is ++ more), none))
        × (length more ≡ (if length is % 3 == 0 then 0 else 1))
  unfolding get_device parse_response
  get_device-surplus parse parse_error body array is result h found =
      let (more, eq, l) = read_audiences-surplus array is result h in
      (more, rw (get_device, parse_response, found) eq, l)
