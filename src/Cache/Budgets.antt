-- ===== src/Cache/Budgets.antt =====
-- `BudgetState` of apps/bidder/code/cache/budget.go, and how it is made from the database.
pub mod State
pub mod Update
use guidance_for_building_a.Common.{
  ℕ, List, [], ◌∷◌, Bool, Option, none, some, get_elem?, set, replicate, ◌>>=◌,
}
use guidance_for_building_a.Common.Int64.{add64, sub64, is_nonneg}
use guidance_for_building_a.Api.{Budget, Scan, Result, ok, err}
use guidance_for_building_a.Cache.Campaigns.{CampaignCache, get_index, size}

-- The available budget of each campaign, an int64.
pub record BudgetState : Type 0 where
  pub available : List ℕ

-- `Reserve`; `none` is the panic of an index out of range.
unfoldable pub reserve : BudgetState → ℕ → ℕ → Option (BudgetState × Bool)
reserve b campaign_index value = do
  a ← get_elem? b.available campaign_index
  let left = sub64 a value
  some (record { available = set b.available campaign_index left }, is_nonneg left)

-- `Free`
unfoldable pub free : BudgetState → ℕ → ℕ → Option BudgetState
free b campaign_index value = do
  a ← get_elem? b.available campaign_index
  some (record { available = set b.available campaign_index (add64 a value) })

-- The consumer of `scanState`.
unfoldable pub consume : CampaignCache → BudgetState → Budget → Option BudgetState
unfolding free
consume campaigns b budget = elim (get_index campaigns budget.campaign_id) [
  | none ↦ some b
  | some campaign_index ↦ free b campaign_index budget.available
]

unfoldable pub consume_all : CampaignCache → BudgetState → List Budget → Option BudgetState
consume_all campaigns b [] = some b
consume_all campaigns b (x ∷ xs) = do b' ← consume campaigns b x; consume_all campaigns b' xs

-- `scanState`: a new state, which starts from zero.
unfoldable pub scan_state : CampaignCache → Scan Budget → Option (Result BudgetState)
scan_state campaigns repository = do
  state ←
      consume_all campaigns (record { available = replicate (size campaigns) 0 }) repository.items
  some (elim repository.error [ none ↦ ok state | some e ↦ err e ])
