-- ===== src/Auction/Choose.antt =====
-- `chooseCampaign` of apps/bidder/code/auction/auction.go: a campaign of the highest MaxCPM, whose
-- budget is spent. `none` is the panic of an index out of range.
pub mod Reserve
pub mod Rank
pub mod Winner
use guidance_for_building_a.Common.{
  ℕ, ◌+◌, ◌%◌, List, [], ◌∷◌, ◌++◌, Bool, not, Option, none, some, length, get_elem?, ltb, ◌==◌,
  if◌then◌else◌, ◌>>=◌,
}
use guidance_for_building_a.Common.Int64.{lt64}
use guidance_for_building_a.Api.{Campaign}
use guidance_for_building_a.Random.{Random}
use guidance_for_building_a.Cache.Campaigns
use guidance_for_building_a.Cache.Campaigns.{CampaignCache}
use guidance_for_building_a.Cache.Budgets.{BudgetState, reserve, free}

-- `winningCPM` and `pd.winningAuctions`
pub record Winning : Type 0 where
  pub winning_cpm : ℕ
  pub winning_auctions : List ℕ

-- The tests of the first loop, for a campaign with budget left.
unfoldable pub contend : Winning → ℕ → ℕ → Winning
contend w campaign_index campaign_cpm =
    let w' =
      if lt64 w.winning_cpm campaign_cpm
      then record { winning_cpm = campaign_cpm; winning_auctions = [] }
      else w in
    if campaign_cpm == w'.winning_cpm
    then record w' { winning_auctions = w'.winning_auctions ++ campaign_index ∷ [] }
    else w'

-- `// Find winning campaigns and reserve budget`
unfoldable pub reserve_all :
    CampaignCache → BudgetState → Winning → List ℕ → Option (BudgetState × Winning)
reserve_all campaigns budgets w [] = some (budgets, w)
reserve_all campaigns budgets w (campaign_index ∷ rest) = do
  campaign ← Campaigns.get campaigns campaign_index
  (budgets', budget_left) ← reserve budgets campaign_index campaign.max_cpm
  reserve_all campaigns budgets'
      (if budget_left then contend w campaign_index campaign.max_cpm else w) rest

-- `winningCampaignID`, where `none` is -1.
abbrev pub is_winner : Option ℕ → ℕ → Bool
is_winner none i = Bool.false
is_winner (some k) i = i == k

-- `// Free budget of all campaigns`
unfoldable pub free_all : CampaignCache → Option ℕ → BudgetState → List ℕ → Option BudgetState
free_all campaigns winner budgets [] = some budgets
free_all campaigns winner budgets (campaign_index ∷ rest) = do
  campaign ← Campaigns.get campaigns campaign_index
  budgets' ←
      if is_winner winner campaign_index
      then some budgets
      else free budgets campaign_index campaign.max_cpm
  free_all campaigns winner budgets' rest

-- `if winningCampaignID < 0`
unfoldable pub winning_campaign : CampaignCache → Option ℕ → Option (Option Campaign)
winning_campaign campaigns none = some none
winning_campaign campaigns (some i) = do campaign ← Campaigns.get campaigns i; some (some campaign)

module _ (r : Random) where
  -- `// Select winning campaign`
  unfoldable pub select : List ℕ → r.Rng → Option (Option ℕ × r.Rng)
  select [] rng = some (none, rng)
  select (i ∷ is) rng = do
    let (k, rng') = r.intn rng (length (i ∷ is))
    winner ← get_elem? (i ∷ is) k
    some (some winner, rng')

  -- `chooseCampaign`: the campaign, or nil, the budgets and the generator.
  unfoldable pub choose_campaign :
      CampaignCache → BudgetState → List ℕ → r.Rng → Option (Option Campaign × BudgetState × r.Rng)
  choose_campaign campaigns budgets campaign_indices rng = do
    (reserved, w) ←
        reserve_all campaigns budgets (record { winning_cpm = 0; winning_auctions = [] })
          campaign_indices
    (winner, rng') ← select w.winning_auctions rng
    freed ← free_all campaigns winner reserved campaign_indices
    campaign ← winning_campaign campaigns winner
    some (campaign, freed, rng')
