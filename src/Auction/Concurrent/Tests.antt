-- ===== src/Auction/Concurrent/Tests.antt =====
-- Two auctions at a time: the second finds too little left, and the first wins.
use guidance_for_building_a.Common.{
  Option, ℕ, ◌+◌, ◌%◌, ◌≤◌, ◌<◌, ◌≡◌, refl, List, [], ◌∷◌, true, false, none, some, All, arith,
}
use guidance_for_building_a.Common.Int64.{sign_bit, u64_mod, sub64, add64, is_nonneg, lt64}
use guidance_for_building_a.Cache.Campaigns.{get}
use guidance_for_building_a.Cache.Budgets.{BudgetState, reserve, free}
use guidance_for_building_a.Cache.Budgets.State.{funds}
use guidance_for_building_a.Auction.Indices.{contains, Distinct}
use guidance_for_building_a.Auction.Choose.{
  Winning, contend, choose_campaign, reserve_all, select, free_all, winning_campaign,
}
use guidance_for_building_a.Random.Counter.{counter}
use guidance_for_building_a.Auction.Concurrent.Alone.{alone, choose_campaign-Run}
use guidance_for_building_a.Auction.Concurrent.{Hold, amount, Reach}
use guidance_for_building_a.Auction.Concurrent.Placed.{IsThread, start-IsThread}
use guidance_for_building_a.Auction.Concurrent.Refines.{calls, run-Reach}
use guidance_for_building_a.Auction.Concurrent.Threads.{
  Position, reserving, freeing, Thread, reserve_one, select_none, select_one, free_one, keep_one,
  System, turn, Run, here, next, start, new_thread, held_by,
}
use guidance_for_building_a.Auction.Concurrent.Within.{Run-within, Run-settles}
use guidance_for_building_a.Auction.Shop.{shop, cheap}

abbrev granted : Hold
granted = record { campaign_index = 0; campaign_cpm = 100; budget_left = true }

abbrev refused : Hold
refused = record { campaign_index = 0; campaign_cpm = 100; budget_left = false }

abbrev one_left : BudgetState
one_left = record { available = 50 ∷ 250 ∷ [] }

-- 50 less 100
abbrev overdrawn : BudgetState
overdrawn = record { available = 18446744073709551566 ∷ 250 ∷ [] }

abbrev thread : Position → List Hold → Thread
thread position holds = record { campaign_indices = 0 ∷ []; position = position; holds = holds }

abbrev nobody : Winning
nobody = record { winning_cpm = 0; winning_auctions = [] }

abbrev first_wins : Winning
first_wins = record { winning_cpm = 100; winning_auctions = 0 ∷ [] }

abbrev both : List (List ℕ)
both = (0 ∷ []) ∷ (0 ∷ []) ∷ []

-- The goroutines at the start, and after they reserved, selected and passed their second loops.
abbrev started : System
started = start shop.budget both

abbrev reserved_first : System
reserved_first = record {
  budgets = one_left;
  threads = thread (reserving first_wins []) (granted ∷ []) ∷ new_thread (0 ∷ []) ∷ [];
  won = [];
}

abbrev reserved_both : System
reserved_both = record {
  budgets = overdrawn;
  threads =
      thread (reserving first_wins []) (granted ∷ [])
      ∷ thread (reserving nobody []) (refused ∷ [])
      ∷ [];
  won = [];
}

abbrev selected_first : System
selected_first = record {
  budgets = overdrawn;
  threads =
      thread (freeing (some 0) (0 ∷ [])) (granted ∷ [])
      ∷ thread (reserving nobody []) (refused ∷ [])
      ∷ [];
  won = [];
}

abbrev selected_both : System
selected_both = record {
  budgets = overdrawn;
  threads =
      thread (freeing (some 0) (0 ∷ [])) (granted ∷ [])
      ∷ thread (freeing none (0 ∷ [])) (refused ∷ [])
      ∷ [];
  won = [];
}

abbrev kept : System
kept = record {
  budgets = overdrawn;
  threads = thread (freeing (some 0) []) [] ∷ thread (freeing none (0 ∷ [])) (refused ∷ []) ∷ [];
  won = granted ∷ [];
}

abbrev finished : System
finished = record {
  budgets = one_left;
  threads = thread (freeing (some 0) []) [] ∷ thread (freeing none []) [] ∷ [];
  won = granted ∷ [];
}

interleaved : Run shop.campaign started finished
unfolding reserve free sub64 add64 is_nonneg get contend lt64
interleaved =
    let first =
      turn started [] (new_thread (0 ∷ [])) (new_thread (0 ∷ []) ∷ []) one_left
        (thread (reserving first_wins []) (granted ∷ [])) [] refl
        (reserve_one shop.budget (0 ∷ []) nobody [] [] cheap granted one_left refl refl refl) in
    let second =
      turn reserved_first (thread (reserving first_wins []) (granted ∷ []) ∷ [])
        (new_thread (0 ∷ [])) [] overdrawn (thread (reserving nobody []) (refused ∷ [])) [] refl
        (reserve_one one_left (0 ∷ []) nobody [] [] cheap refused overdrawn refl refl refl) in
    let choose_first =
      turn reserved_both [] (thread (reserving first_wins []) (granted ∷ []))
        (thread (reserving nobody []) (refused ∷ []) ∷ []) overdrawn
        (thread (freeing (some 0) (0 ∷ [])) (granted ∷ [])) [] refl
        (select_one overdrawn (0 ∷ []) first_wins (granted ∷ []) 0 0 refl) in
    let choose_second =
      turn selected_first (thread (freeing (some 0) (0 ∷ [])) (granted ∷ []) ∷ [])
        (thread (reserving nobody []) (refused ∷ [])) [] overdrawn
        (thread (freeing none (0 ∷ [])) (refused ∷ [])) [] refl
        (select_none overdrawn (0 ∷ []) nobody (refused ∷ []) refl) in
    let keep =
      turn selected_both [] (thread (freeing (some 0) (0 ∷ [])) (granted ∷ []))
        (thread (freeing none (0 ∷ [])) (refused ∷ []) ∷ []) overdrawn
        (thread (freeing (some 0) []) []) (granted ∷ []) refl
        (keep_one overdrawn (0 ∷ []) (some 0) 0 [] granted [] refl) in
    let release =
      turn kept (thread (freeing (some 0) []) [] ∷ [])
        (thread (freeing none (0 ∷ [])) (refused ∷ [])) [] one_left (thread (freeing none []) []) []
        refl (free_one overdrawn (0 ∷ []) none 0 [] refused [] cheap one_left refl refl refl) in
    next (next (next (next (next (next here first) second) choose_first) choose_second) keep)
      release

distinct : All Distinct both
unfolding contains
distinct = ((refl, tt), ((refl, tt), tt))

cached : get shop.campaign 0 ≡ some cheap
unfolding get
cached = refl

below : funds shop.budget 0 < sign_bit
unfolding funds
below = omega arith

threads : All (IsThread shop.campaign) started.threads
threads = let one = start-IsThread shop.campaign (0 ∷ []) distinct.0 in (one, (one, tt))

run-Reach_example : Reach (calls shop.campaign started) (calls shop.campaign finished)
run-Reach_example = run-Reach shop.campaign interleaved threads

Run-within_example :
    (amount 0 finished.won ≤ funds shop.budget 0)
    × ((funds finished.budgets 0 + amount 0 (held_by finished.threads) + amount 0 finished.won)
          % u64_mod
        ≡ funds shop.budget 0)
Run-within_example =
    Run-within shop.campaign 0 cheap cached shop.budget both distinct (omega arith) below
      interleaved

Run-settles_example : funds finished.budgets 0 + amount 0 finished.won ≡ funds shop.budget 0
Run-settles_example =
    Run-settles shop.campaign 0 cheap cached shop.budget both distinct (omega arith) below
      interleaved (tt, (tt, tt))

chosen :
    choose_campaign counter shop.campaign shop.budget (0 ∷ []) 5 ≡ some (some cheap, one_left, 6)
unfolding choose_campaign reserve_all select free_all winning_campaign reserve free sub64 add64
    is_nonneg get contend lt64
chosen = refl

choose_campaign-Run_example :
    (winner : Option ℕ) × (won : List Hold) × Run shop.campaign
      (start shop.budget ((0 ∷ []) ∷ []))
      (alone (0 ∷ []) one_left (freeing winner []) [] won)
    × (winning_campaign shop.campaign winner ≡ some (some cheap))
choose_campaign-Run_example =
    choose_campaign-Run counter shop.campaign shop.budget (0 ∷ []) 5 chosen
