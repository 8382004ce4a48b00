-- ===== src/Datagen/Keys.antt =====
-- `for i := cfg.KeyLow; i <= cfg.KeyHigh; i++`, the loop over uint64 keys of every generator of
-- tools/datagen/pkg/generator. `none` is a panic of the body, or that the fuel ran out.
use guidance_for_building_a.Common.{
  ℕ, zero, suc, ◌+◌, ◌-◌, ◌%◌, ◌≤◌, ◌<◌, ◌≡◌, refl, ap, List, [], ◌∷◌, Option, none, some, ltb,
  ◌>>=◌, Bool-cases, Option-cases, inl, inr, if◌then◌else◌, arith, lt→ltb, false,
}
use mathlib.Core.Path.{fun_ext}
use guidance_for_building_a.Common.Int64.{u64_mod}

module _ {S : Type 0} (body : ℕ → S → Option S) where
  unfoldable pub each_key : ℕ → ℕ → ℕ → S → Option S
  each_key zero i high s = none
  each_key (suc fuel) i high s =
      let next = body i s >>= each_key fuel ((i + 1) % u64_mod) high in
      if ltb high i then some s else next

  -- The body at one key after the other.
  unfoldable pub each : List ℕ → S → Option S
  each [] s = some s
  each (k ∷ ks) s = body k s >>= each ks

-- `n` keys from `i` on
unfoldable pub count_up : ℕ → ℕ → List ℕ
count_up zero i = []
count_up (suc n) i = i ∷ count_up n (i + 1)

abbrev pub keys_between : ℕ → ℕ → List ℕ
keys_between low high = count_up (high + 1 - low) low

module _ {S : Type 0} (body : ℕ → S → Option S) where
  each_key-count_up :
      (n i fuel high : ℕ) (s : S)
      → n ≡ high + 1 - i
      → i ≤ high + 1
      → high + 1 < u64_mod
      → n < fuel
      → each_key body fuel i high s ≡ each body (count_up n i) s
  unfolding each_key each count_up
  each_key-count_up n i zero high s e le top enough = absurd (omega arith)
  each_key-count_up zero i (suc fuel) high s e le top enough = rw (lt→ltb high i (omega arith)) refl
  each_key-count_up (suc n) i (suc fuel) high s e le top enough =
      let more : ltb high i ≡ false = ground arith in
      let same : (i + 1) % u64_mod ≡ i + 1 = omega arith in
      rw (more, same)
        (ap (λ k. body i s >>= k)
          (fun_ext (λ s'.
            each_key-count_up n (i + 1) fuel high s' (omega arith) (omega arith) top
              (omega arith))))

  -- Below the last uint64 the loop ends, after one round for each key between the bounds.
  pub each_key_ends :
      (fuel low high : ℕ) (s : S)
      → high + 1 < u64_mod
      → high + 1 - low < fuel
      → each_key body fuel low high s ≡ each body (keys_between low high) s
  unfolding each_key each count_up
  each_key_ends zero low high s top enough = absurd (omega arith)
  each_key_ends (suc fuel) low high s top enough = elim (Bool-cases (ltb (high + 1) low)) [
    | inl none_left ↦
        let empty : high + 1 - low ≡ 0 = ground arith in
        rw (empty, lt→ltb high low (ground arith)) refl
    | inr left ↦
        each_key-count_up (high + 1 - low) low (suc fuel) high s refl (ground arith) top enough
  ]

  -- Up to the last uint64 it does not.
  pub each_key_hangs :
      (fuel i : ℕ) (s : S) → i < u64_mod → each_key body fuel i (u64_mod - 1) s ≡ none
  unfolding each_key
  each_key_hangs zero i s h = refl
  each_key_hangs (suc fuel) i s h =
      let more : ltb (u64_mod - 1) i ≡ false = ground arith in
      elim (Option-cases (body i s)) [
        | inl e ↦ rw (more, e) refl
        | inr (s', e) ↦ rw (more, e) (each_key_hangs fuel ((i + 1) % u64_mod) s' (omega arith))
      ]
