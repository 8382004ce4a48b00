-- ===== src/Database/Consumer.antt =====
-- A consumer of scanned items, `func(T) error`: what it changes, and the error that ends the scan.
use guidance_for_building_a.Common.{List, [], ◌∷◌, Option, none, some}
use guidance_for_building_a.Api.{Error}

abbrev pub Consumer : Type 0 → Type 0 → Type 0
Consumer S A = S → A → S × Option Error

module _ {S A : Type 0} (consume : Consumer S A) where
  -- `if err := consume(item); err != nil { return err }` for each item.
  unfoldable pub feed : S → List A → S × Option Error
  feed s [] = (s, none)
  feed s (x ∷ xs) =
      let (s', e) = consume s x in elim e [ none ↦ feed s' xs | some err ↦ (s', some err) ]
