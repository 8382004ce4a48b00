-- ===== src/Datagen/Buffer/Ends.antt =====
-- `Close` ends with an empty buffer, or with the first error.
use guidance_for_building_a.Common.{
  ◌≤◌, ◌<◌, ◌≡◌, refl, List, [], ◌∷◌, ◌++◌, none, some, length, drop, length-append, length-drop,
  arith,
}
use guidance_for_building_a.Datagen.Buffer.{
  Table, Answer, failed, unprocessed, cut, returned, flush_batch_from_buffer, flush_buffer,
}

module _ {A : Type 0} (table : Table) where
  -- An answer that is no error and leaves something of every call written.
  abbrev pub IsProgress : Answer A → List A → Type 0
  IsProgress (failed e) buffer = ⊥
  IsProgress (unprocessed items) buffer = length (returned table items) < cut buffer

  -- Each answer makes progress on the buffer that it finds, until that is empty.
  abbrev pub Progress : List A → List (Answer A) → Type 0
  Progress [] answers = Unit {0}
  Progress (x ∷ xs) [] = Unit {0}
  Progress (x ∷ xs) (a ∷ as_) =
      IsProgress a (x ∷ xs) × Progress (flush_batch_from_buffer table (x ∷ xs) a).0 as_

  cut-le : (buffer : List A) → cut buffer ≤ length buffer
  unfolding cut
  cut-le buffer = ground arith

  -- With one answer for each item, each of which stores at least one item of its call as long as
  -- there are any, `Close` ends
  -- without an error and the buffer is empty.
  pub flush_buffer_ends :
      (buffer : List A) (answers : List (Answer A))
      → length buffer ≤ length answers
      → Progress buffer answers
      → flush_buffer table buffer answers ≡ some ([], none)
  unfolding flush_buffer flush_batch_from_buffer
  flush_buffer_ends [] answers enough p = refl
  flush_buffer_ends (x ∷ xs) [] enough p = absurd (omega arith)
  flush_buffer_ends (x ∷ xs) (failed e ∷ as_) enough p = elim p.0 [ ]
  flush_buffer_ends (x ∷ xs) (unprocessed items ∷ as_) enough p =
      flush_buffer_ends (drop (cut (x ∷ xs)) (x ∷ xs) ++ returned table items) as_
        (omega (
          arith,
          length-append (drop (cut (x ∷ xs)) (x ∷ xs)) (returned table items),
          length-drop (cut (x ∷ xs)) (x ∷ xs),
          cut-le (x ∷ xs),
          p.0,
          enough,
        ))
        p.1
