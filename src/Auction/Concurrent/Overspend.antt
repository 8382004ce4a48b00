-- ===== src/Auction/Concurrent/Overspend.antt =====
-- No campaign spends more than its budget, however the auctions interleave.
use guidance_for_building_a.Common.{
  ℕ, ◌+◌, ◌%◌, ◌≤◌, ◌<◌, ◌≡◌, sym, ◌∙◌, List, [], ◌∷◌, ◌++◌, Bool, some, length, get_elem?,
  get_elem?_lt, Option-cases, Bool-cases, inl, inr, ◌==◌, ==_iff, if◌then◌else◌, arith, ap,
}
use guidance_for_building_a.Common.Int64.{IsInt64, u64_mod, sign_bit, add64, sub64, is_nonneg}
use guidance_for_building_a.Cache.Budgets.{BudgetState, reserve, free}
use guidance_for_building_a.Cache.Budgets.State.{funds, update, funds-update, reserve_lem, free_lem}
use guidance_for_building_a.Auction.Concurrent.{
  Hold, Running, amount, Step, reserves, frees, wins, Reach, here, next, IsLimited,
}

-- The reservations of campaign `i` for which the budget was left.
abbrev granted : ℕ → List Hold → ℕ
granted i [] = 0
granted i (h ∷ hs) =
    (if h.budget_left then (if h.campaign_index == i then h.campaign_cpm else 0) else 0)
    + granted i hs

pub amount-append : (i : ℕ) (xs ys : List Hold) → amount i (xs ++ ys) ≡ amount i xs + amount i ys
unfolding amount
amount-append i [] ys = omega arith
amount-append i (x ∷ xs) ys = omega (arith, amount-append i xs ys)

granted-append : (i : ℕ) (xs ys : List Hold) → granted i (xs ++ ys) ≡ granted i xs + granted i ys
granted-append i [] ys = omega arith
granted-append i (x ∷ xs) ys = omega (arith, granted-append i xs ys)

granted-le : (i : ℕ) (hs : List Hold) → granted i hs ≤ amount i hs
unfolding amount
granted-le i [] = omega arith
granted-le i (h ∷ hs) = ground (arith, granted-le i hs)

-- The budget of campaign `i` was `start`.
pub record IsFair (i start : ℕ) (c : Running) : Type 0 where
  pub balance : (funds c.budgets i + amount i c.held + amount i c.won) % u64_mod ≡ start
  pub fair : granted i c.held + amount i c.won ≤ start
  pub word : IsInt64 (funds c.budgets i)

reserved :
    (b : BudgetState) (j v : ℕ) {b' : BudgetState} {left : Bool}
    → reserve b j v ≡ some (b', left)
    → (j < length b.available)
unfolding reserve
reserved b j v h = elim (Option-cases (get_elem? b.available j)) [
  | inl e ↦ cc (rw (reserve, e) at h)
  | inr (a, e) ↦ get_elem?_lt b.available j a e
]

funds-reserve :
    (b : BudgetState) (i j v : ℕ) {b' : BudgetState} {left : Bool}
    → reserve b j v ≡ some (b', left)
    → (funds b' i ≡ (if j == i then sub64 (funds b j) v else funds b i))
      × (left ≡ is_nonneg (sub64 (funds b j) v))
funds-reserve b i j v {b'} {left} h =
    let lt = reserved b j v h in
    let e = sym (reserve_lem b j v lt) ∙ h in
    let eb : update b j (sub64 (funds b j) v) ≡ b' = cc e in
    let el : is_nonneg (sub64 (funds b j) v) ≡ left = cc e in
    (ap (λ x. funds x i) (sym eb) ∙ funds-update b j i (sub64 (funds b j) v) lt, sym el)

funds-free :
    (b : BudgetState) (i j v : ℕ) {b' : BudgetState}
    → free b j v ≡ some b'
    → funds b' i ≡ (if j == i then add64 (funds b j) v else funds b i)
unfolding free
funds-free b i j v {b'} h = elim (Option-cases (get_elem? b.available j)) [
  | inl e ↦ cc (rw (free, e) at h)
  | inr (a, e) ↦
      let lt = get_elem?_lt b.available j a e in
      let eb : update b j (add64 (funds b j) v) ≡ b' = cc (sym (free_lem b j v lt) ∙ h) in
      ap (λ x. funds x i) (sym eb) ∙ funds-update b j i (add64 (funds b j) v) lt
]

step-IsFair :
    (i start : ℕ) {c d : Running}
    → start < sign_bit
    → Step c d
    → amount i d.held ≤ sign_bit
    → IsFair i start c
    → IsFair i start d
unfolding amount add64 sub64 is_nonneg
step-IsFair i start small (reserves c pre h post b split e) limit f =
    let (fs, el) = funds-reserve c.budgets i h.campaign_index h.campaign_cpm e in
    let le = granted-le i c.held in
    let a1 = amount-append i pre (h ∷ post) in
    let a2 = amount-append i pre post in
    let g1 = granted-append i pre (h ∷ post) in
    let g2 = granted-append i pre post in
    let sa : amount i c.held ≡ amount i (pre ++ post) = ap (amount i) split in
    let sg : granted i c.held ≡ granted i (pre ++ post) = ap (granted i) split in
    elim (Bool-cases (h.campaign_index == i)) [
      | inl same ↦
          let mine : funds c.budgets h.campaign_index ≡ funds c.budgets i =
            ap (funds c.budgets) ((==_iff h.campaign_index i).0 same) in
          record {
            balance = ground (arith, f.balance, f.word);
            fair = ground (arith, f.fair, f.balance, f.word, limit);
            word = ground (arith, f.word);
          }
      | inr other ↦ record {
        balance = ground (arith, f.balance);
        fair = ground (arith, f.fair);
        word = ground (arith, f.word);
      }
    ]
step-IsFair i start small (frees c pre h post b split e) limit f =
    let fs = funds-free c.budgets i h.campaign_index h.campaign_cpm e in
    let a1 = amount-append i pre (h ∷ post) in
    let a2 = amount-append i pre post in
    let g1 = granted-append i pre (h ∷ post) in
    let g2 = granted-append i pre post in
    let sa : amount i c.held ≡ amount i (pre ++ h ∷ post) = ap (amount i) split in
    let sg : granted i c.held ≡ granted i (pre ++ h ∷ post) = ap (granted i) split in
    elim (Bool-cases (h.campaign_index == i)) [
      | inl same ↦
          let mine : funds c.budgets h.campaign_index ≡ funds c.budgets i =
            ap (funds c.budgets) ((==_iff h.campaign_index i).0 same) in
          record {
            balance = ground (arith, f.balance, f.word);
            fair = ground (arith, f.fair);
            word = ground (arith, f.word);
          }
      | inr other ↦ record {
        balance = ground (arith, f.balance, f.word);
        fair = ground (arith, f.fair);
        word = ground (arith, f.word);
      }
    ]
step-IsFair i start small (wins c pre h post split left) limit f =
    let a1 = amount-append i pre (h ∷ post) in
    let a2 = amount-append i pre post in
    let g1 = granted-append i pre (h ∷ post) in
    let g2 = granted-append i pre post in
    let sa : amount i c.held ≡ amount i (pre ++ h ∷ post) = ap (amount i) split in
    let sg : granted i c.held ≡ granted i (pre ++ h ∷ post) = ap (granted i) split in
    record { balance = ground (arith, f.balance); fair = ground (arith, f.fair); word = f.word }

pub IsFair-at :
    (i : ℕ) (b : BudgetState) {c : Running}
    → funds b i < sign_bit
    → (r : Reach (record { budgets = b; held = []; won = [] }) c) → IsLimited i r
    → IsFair i (funds b i) c
unfolding amount IsLimited
IsFair-at i b small here _ = record {
  balance = omega (arith, small);
  fair = omega arith;
  word = omega (arith, small);
}
IsFair-at i b small (next q s) (before, after) =
    step-IsFair i (funds b i) small s after (IsFair-at i b small q before)
