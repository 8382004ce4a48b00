-- ===== src/Auction/Concurrent/Threads.antt =====
-- `chooseCampaign` of apps/bidder/code/auction/auction.go in steps, cut at each access to the budgets,
-- and several goroutines that run it on the same budget state.
use guidance_for_building_a.Common.{
  ℕ, ◌≡◌, List, [], ◌∷◌, ◌++◌, map, true, false, Option, none, some, get_elem?, if◌then◌else◌,
}
use guidance_for_building_a.Api.{Campaign}
use guidance_for_building_a.Cache.Campaigns
use guidance_for_building_a.Cache.Campaigns.{CampaignCache}
use guidance_for_building_a.Cache.Budgets.{BudgetState, reserve, free}
use guidance_for_building_a.Auction.Choose.{Winning, contend, is_winner}
use guidance_for_building_a.Auction.Concurrent.{Hold}

-- Where the goroutine stands, with the indices that its loop has left.
pub data Position : Type 0 where
  reserving : Winning → List ℕ → Position
  freeing : Option ℕ → List ℕ → Position

-- A goroutine in `chooseCampaign`. That it knows its reservations is for the theorems only: the
-- program has them in the budgets.
pub record Thread : Type 0 where
  pub campaign_indices : List ℕ
  pub position : Position
  pub holds : List Hold

-- One step of a goroutine: the budgets and it before, both after, and the reservation it keeps.
pub data Move (campaigns : CampaignCache)
    : BudgetState → Thread → BudgetState → Thread → List Hold → Type 0 where
  -- One round of the first loop.
  reserve_one :
      (b : BudgetState) (is : List ℕ) (w : Winning) (rest : List ℕ) (holds : List Hold)
      (campaign : Campaign) (h : Hold) (b' : BudgetState)
      → Campaigns.get campaigns h.campaign_index ≡ some campaign
      → h.campaign_cpm ≡ campaign.max_cpm
      → reserve b h.campaign_index h.campaign_cpm ≡ some (b', h.budget_left)
      → Move campaigns b
          (record {
            campaign_indices = is;
            position = reserving w (h.campaign_index ∷ rest);
            holds = holds;
          })
          b'
          (record {
            campaign_indices = is;
            position =
                reserving
                  (if h.budget_left then contend w h.campaign_index h.campaign_cpm else w)
                  rest;
            holds = holds ++ h ∷ [];
          })
          []
  -- `winningCampaignID` is -1, or any of the winning auctions.
  select_none :
      (b : BudgetState) (is : List ℕ) (w : Winning) (holds : List Hold)
      → w.winning_auctions ≡ []
      → Move campaigns b
          (record { campaign_indices = is; position = reserving w []; holds = holds })
          b
          (record { campaign_indices = is; position = freeing none is; holds = holds })
          []
  select_one :
      (b : BudgetState) (is : List ℕ) (w : Winning) (holds : List Hold) (k winner : ℕ)
      → get_elem? w.winning_auctions k ≡ some winner
      → Move campaigns b
          (record { campaign_indices = is; position = reserving w []; holds = holds })
          b
          (record { campaign_indices = is; position = freeing (some winner) is; holds = holds })
          []
  -- One round of the second loop, which frees or passes over the winner.
  free_one :
      (b : BudgetState) (is : List ℕ) (winner : Option ℕ) (i : ℕ) (rest : List ℕ) (h : Hold)
      (holds : List Hold) (campaign : Campaign) (b' : BudgetState)
      → is_winner winner i ≡ false
      → Campaigns.get campaigns i ≡ some campaign
      → free b i campaign.max_cpm ≡ some b'
      → Move campaigns b
          (record {
            campaign_indices = is;
            position = freeing winner (i ∷ rest);
            holds = h ∷ holds;
          })
          b'
          (record { campaign_indices = is; position = freeing winner rest; holds = holds })
          []
  keep_one :
      (b : BudgetState) (is : List ℕ) (winner : Option ℕ) (i : ℕ) (rest : List ℕ) (h : Hold)
      (holds : List Hold)
      → is_winner winner i ≡ true
      → Move campaigns b
          (record {
            campaign_indices = is;
            position = freeing winner (i ∷ rest);
            holds = h ∷ holds;
          })
          b
          (record { campaign_indices = is; position = freeing winner rest; holds = holds })
          (h ∷ [])

-- The budgets and the goroutines, and the reservations that winners kept.
pub record System : Type 0 where
  pub budgets : BudgetState
  pub threads : List Thread
  pub won : List Hold

-- Any of the goroutines makes its next step.
pub data Turn (campaigns : CampaignCache) : System → System → Type 0 where
  turn :
      (s : System) (pre : List Thread) (t : Thread) (post : List Thread) (b : BudgetState)
      (t' : Thread) (kept : List Hold)
      → s.threads ≡ pre ++ t ∷ post
      → Move campaigns s.budgets t b t' kept
      → Turn campaigns s (record { budgets = b; threads = pre ++ t' ∷ post; won = kept ++ s.won })

pub data Run (campaigns : CampaignCache) (s : System) : System → Type 0 where
  here : Run campaigns s s
  next : {t u : System} → Run campaigns s t → Turn campaigns t u → Run campaigns s u

-- `pd.winningAuctions = pd.winningAuctions[:0]`
abbrev pub new_thread : List ℕ → Thread
new_thread is = record {
  campaign_indices = is;
  position = reserving (record { winning_cpm = 0; winning_auctions = [] }) is;
  holds = [];
}

-- The reservations of all goroutines.
unfoldable pub held_by : List Thread → List Hold
held_by [] = []
held_by (t ∷ ts) = t.holds ++ held_by ts

-- Goroutines that enter `chooseCampaign` with these indices.
abbrev pub start : BudgetState → List (List ℕ) → System
start b lists = record { budgets = b; threads = map new_thread lists; won = [] }

-- The second loop has nothing left.
abbrev pub HasFinished : Position → Type 0
HasFinished (reserving w rest) = ⊥
HasFinished (freeing winner []) = Unit {0}
HasFinished (freeing winner (i ∷ rest)) = ⊥

abbrev pub IsFinished : Thread → Type 0
IsFinished t = HasFinished t.position
