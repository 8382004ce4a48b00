-- ===== src/Ksuid.antt =====
-- apps/bidder/code/ksuid/ksuid.go: a sequence of KSUIDs that starts again when it is spent. The library's
-- `Sequence` is a parameter.
use guidance_for_building_a.Common.{◌≡◌, refl, Option, none, some, Option-cases, inl, inr}

-- The sequence of a seed, its next identifier, or none if it is spent, and the identifier that is
-- given then. `New` gives a seed.
pub record Library : Type 1 where
  pub Seed : Type 0
  pub Sequence : Type 0
  pub Ksuid : Type 0
  pub seeded : Seed → Sequence
  pub next : Sequence → Option (Ksuid × Sequence)
  pub nil : Ksuid

-- A new sequence is not spent.
pub record IsFresh (l : Library) : Type 0 where
  pub fresh :
      (seed : l.Seed) → (id : l.Ksuid) × (s : l.Sequence) × (l.next (l.seeded seed) ≡ some (id, s))

module _ (l : Library) where
  -- `NewSequence`
  unfoldable pub new_sequence : l.Seed → l.Sequence
  new_sequence seed = l.seeded seed

  -- `Get`, with the seed that `New` would give.
  unfoldable pub get : l.Sequence → l.Seed → l.Ksuid × l.Sequence
  get s seed = elim (l.next s) [
    | some (id, s') ↦ (id, s')
    | none ↦ elim (l.next (l.seeded seed)) [
      | some (id, s') ↦ (id, s')
      | none ↦ (l.nil, l.seeded seed)
    ]
  ]

  -- Spent or not, `Get` gives an identifier of a sequence, and the sequence behind it.
  get-next :
      (h : IsFresh l) (s : l.Sequence) (seed : l.Seed)
      → (from : l.Sequence) × (l.next from ≡ some (get s seed))
  unfolding get
  get-next h s seed = elim (Option-cases (l.next s)) [
    | inr (p, e) ↦ (s, rw (get, e) refl)
    | inl spent ↦ let (id, s', e) = h.fresh seed in (l.seeded seed, rw (get, spent, e) refl)
  ]
