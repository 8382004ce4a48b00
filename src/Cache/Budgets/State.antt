-- ===== src/Cache/Budgets/State.antt =====
-- Reserving and freeing in a budget state, and the state that a scan of the database makes.
use guidance_for_building_a.Common.{
  ℕ, suc, zero, ◌+◌, ◌%◌, ◌<◌, ◌≡◌, refl, ap, ◌∙◌, List, [], ◌∷◌, Option, none, some, length,
  get_elem?, get_elem?_lt, get_elem?-some, set, length-set, replicate, length-replicate,
  get_elem?-set_self, get_elem?-set_ne, Option-cases, Bool-cases, inl, inr, if◌then◌else◌, ◌==◌,
  ==_iff, arith,
}
use guidance_for_building_a.Common.Int64.{IsInt64, u64_mod, add64, sub64, is_nonneg, add64-IsInt64}
use guidance_for_building_a.Api.{Budget, Validation, Scan, ok}
use guidance_for_building_a.Cache.Campaigns
use guidance_for_building_a.Cache.Campaigns.{CampaignCache, get_index, size}
use guidance_for_building_a.Cache.Campaigns.Index.{IsIndexed}
use guidance_for_building_a.Cache.Budgets.{
  BudgetState, reserve, free, consume, consume_all, scan_state,
}

abbrev pub or_zero : Option ℕ → ℕ
or_zero none = 0
or_zero (some a) = a

-- The available budget of a campaign; zero for an index that has none.
unfoldable pub funds : BudgetState → ℕ → ℕ
funds b i = or_zero (get_elem? b.available i)

-- A state for `n` campaigns, each amount an int64.
pub record IsState (n : ℕ) (b : BudgetState) : Type 0 where
  pub sized : length b.available ≡ n
  pub words : (i : ℕ) → IsInt64 (funds b i)

-- The state with another amount for one campaign.
unfoldable pub update : BudgetState → ℕ → ℕ → BudgetState
update b i a = record { available = set b.available i a }

pub funds-update :
    (b : BudgetState) (i j a : ℕ)
    → i < length b.available
    → funds (update b i a) j ≡ (if i == j then a else funds b j)
unfolding funds update
funds-update b i j a h = elim (Bool-cases (i == j)) [
  | inl e ↦ rw e (rw (← (==_iff i j).0 e) (ap or_zero (get_elem?-set_self b.available i a h)))
  | inr e ↦ rw e (ap or_zero (get_elem?-set_ne b.available i j a (λ same. ground arith)))
]

pub update-IsState :
    (n : ℕ) (b : BudgetState) (i a : ℕ) → i < n → IsInt64 a → IsState n b → IsState n (update b i a)
update-IsState n b i a h fits s = record {
  sized = unfold update in length-set b.available i a ∙ s.sized;
  words = λ j. ground (arith, funds-update b i j a, s.words j, s.sized);
}

-- Within range both operations change one amount, by arithmetic modulo 2 ^ 64, and `Reserve`
-- tells whether what is left is not negative.
pub reserve_lem :
    (b : BudgetState) (i v : ℕ)
    → i < length b.available
    → reserve b i v ≡ some (update b i (sub64 (funds b i) v), is_nonneg (sub64 (funds b i) v))
unfolding reserve funds update
reserve_lem b i v h = let (a, e) = get_elem?-some b.available i h in rw e

pub free_lem :
    (b : BudgetState) (i v : ℕ)
    → i < length b.available
    → free b i v ≡ some (update b i (add64 (funds b i) v))
unfolding free funds update
free_lem b i v h = let (a, e) = get_elem?-some b.available i h in rw e

-- What one scanned budget, and what all of them, say of campaign `i`.
pub deposit : CampaignCache → ℕ → Budget → ℕ
deposit campaigns i x = elim (get_index campaigns x.campaign_id) [
  | none ↦ 0
  | some n ↦ if n == i then x.available else 0
]

pub deposits : CampaignCache → ℕ → List Budget → ℕ
deposits campaigns i [] = 0
deposits campaigns i (x ∷ xs) = deposit campaigns i x + deposits campaigns i xs

module _ (v : Validation) (campaigns : CampaignCache) (indexed : IsIndexed v campaigns) where
  pub get_index-lt : (i : List ℕ) (n : ℕ) → get_index campaigns i ≡ some n → n < size campaigns
  get_index-lt i n e =
      let (k, at, has) = indexed.found i n e in
      unfold Campaigns.get size in get_elem?_lt campaigns.campaigns n k at

  consume_all-deposits :
      (b : BudgetState) (xs : List Budget)
      → IsState (size campaigns) b
      → (b' : BudgetState) × (consume_all campaigns b xs ≡ some b')
        × IsState (size campaigns) b'
        × ((i : ℕ) → funds b' i ≡ (funds b i + deposits campaigns i xs) % u64_mod)
  unfolding consume_all consume deposits deposit add64
  consume_all-deposits b [] s = (b, refl, s, λ i. omega (arith, s.words i))
  consume_all-deposits b (x ∷ xs) s = elim (Option-cases (get_index campaigns x.campaign_id)) [
    | inl e ↦
        let (b', r, s', f) = consume_all-deposits b xs s in
        (b', rw (e, consume_all, consume) r, s', λ i. rw (e, deposit) (omega (arith, f i)))
    | inr (n, e) ↦
        let lt = get_index-lt x.campaign_id n e in
        let next = update b n (add64 (funds b n) x.available) in
        let (b', r, s', f) =
          consume_all-deposits next xs
            (update-IsState (size campaigns) b n _ lt (add64-IsInt64 (funds b n) x.available) s) in
        (
          b',
          rw (e, consume_all, consume, free_lem b n x.available (omega (arith, s.sized))) r,
          s',
          λ i.
              rw (e, deposit)
                (ground (arith, f i, s.sized, funds-update b n i (add64 (funds b n) x.available))),
        )
  ]

  zeros : BudgetState
  zeros = record { available = replicate (size campaigns) 0 }

  zero_at : (n i : ℕ) → or_zero (get_elem? (replicate n 0) i) ≡ 0
  zero_at zero i = refl
  zero_at (suc n) zero = refl
  zero_at (suc n) (suc i) = zero_at n i

  zeros-IsState : IsState (size campaigns) zeros
  unfolding funds zeros
  zeros-IsState = record {
    sized = length-replicate (size campaigns) 0;
    words = λ i. rw (zero_at (size campaigns) i) (omega arith);
  }

  -- Over an indexed campaign cache, where the database ends the scan of the budgets without an
  -- error: the scan does not panic, each cached campaign has an int64, the sum of its budgets
  -- modulo 2 ^ 64, and budgets of other campaigns count for none.
  pub scan_state-deposits :
      (repository : Scan Budget)
      → repository.error ≡ none
      → (b : BudgetState) × (scan_state campaigns repository ≡ some (ok b))
        × IsState (size campaigns) b
        × ((i : ℕ) → funds b i ≡ deposits campaigns i repository.items % u64_mod)
  unfolding scan_state zeros
  scan_state-deposits repository done =
      let (b, r, s, f) = consume_all-deposits zeros repository.items zeros-IsState in
      let empty : (i : ℕ) → funds zeros i ≡ 0 = λ i. (unfold funds in zero_at (size campaigns) i) in
      (b, rw (r, done), s, λ i. omega (arith, f i, empty i))
