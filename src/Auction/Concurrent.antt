-- ===== src/Auction/Concurrent.antt =====
-- Auctions that run at a time, on one budget state: the calls of `Reserve` and `Free` that
-- `chooseCampaign` of apps/bidder/code/auction/auction.go makes, each atomic, in any order.
pub mod Overspend
pub mod Threads
pub mod Placed
pub mod Refines
pub mod Within
pub mod Alone
mod Tests
use guidance_for_building_a.Common.{
  ℕ, ◌+◌, ◌≤◌, ◌≡◌, List, [], ◌∷◌, ◌++◌, Bool, true, some, ◌==◌, if◌then◌else◌,
}
use guidance_for_building_a.Common.Int64.{sign_bit}
use guidance_for_building_a.Cache.Budgets.{BudgetState, reserve, free}

-- A reservation that an auction has made, and whether the budget was left.
pub record Hold : Type 0 where
  pub campaign_index : ℕ
  pub campaign_cpm : ℕ
  pub budget_left : Bool

-- The budgets, the reservations that are not freed or won yet, and those that won.
pub record Running : Type 0 where
  pub budgets : BudgetState
  pub held : List Hold
  pub won : List Hold

-- What the reservations of campaign `i` come to.
unfoldable pub amount : ℕ → List Hold → ℕ
amount i [] = 0
amount i (h ∷ hs) = (if h.campaign_index == i then h.campaign_cpm else 0) + amount i hs

pub data Step : Running → Running → Type 0 where
  -- The first loop reserves. The order of the reservations has no meaning.
  reserves :
      (c : Running) (pre : List Hold) (h : Hold) (post : List Hold) (b : BudgetState)
      → c.held ≡ pre ++ post
      → reserve c.budgets h.campaign_index h.campaign_cpm ≡ some (b, h.budget_left)
      → Step c (record c { budgets = b; held = pre ++ h ∷ post })
  -- The second loop frees.
  frees :
      (c : Running) (pre : List Hold) (h : Hold) (post : List Hold) (b : BudgetState)
      → c.held ≡ pre ++ h ∷ post
      → free c.budgets h.campaign_index h.campaign_cpm ≡ some b
      → Step c (record c { budgets = b; held = pre ++ post })
  -- The winner, a campaign with budget left, keeps its reservation.
  wins :
      (c : Running) (pre : List Hold) (h : Hold) (post : List Hold)
      → c.held ≡ pre ++ h ∷ post
      → h.budget_left ≡ true
      → Step c (record c { held = pre ++ post; won = h ∷ c.won })

pub data Reach (b : Running) : Running → Type 0 where
  here : Reach b b
  next : {c d : Running} → Reach b c → Step c d → Reach b d

-- At no time more than 2 ^ 63 is reserved of campaign `i`.
unfoldable pub IsLimited : (i : ℕ) {b c : Running} → Reach b c → Type 0
IsLimited i {b} here = amount i b.held ≤ sign_bit
IsLimited i {c = d} (next r s) = IsLimited i r × (amount i d.held ≤ sign_bit)
