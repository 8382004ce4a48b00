-- ===== src/Cache/Budgets/Update.antt =====
-- The updates of apps/bidder/code/cache/budget.go: a loop that receives requests and ticks, and the
-- goroutines that it starts, as steps that may come in any order.
use guidance_for_building_a.Common.{
  ℕ, suc, ◌+◌, ◌-◌, ◌≡◌, refl, Bool, true, false, if◌then◌else◌, ◌==◌, ◌||◌, arith, ◌^◌,
}
use guidance_for_building_a.Cache.Budgets.{BudgetState}
use guidance_for_building_a.Cache.Budgets.State.{IsState}

-- The period of the ticker that `start` makes.
unfoldable pub update_period : ℕ → Bool → ℕ
update_period budget_sync_period budget_sync_disable =
    let never : ℕ = 2 ^ 63 - 1 in
    if budget_sync_period == 0 || budget_sync_disable then never else budget_sync_period

-- `Budget`, with its goroutines: those that scan, those that have scanned and not yet cleared
-- `updateInProgress`, those that have and are not yet done, and the loop.
pub record Updater : Type 0 where
  pub state : BudgetState
  pub update_in_progress : Bool
  pub scanning : ℕ
  pub finishing : ℕ
  pub cleared : ℕ
  pub update_wg : ℕ
  pub looping : Bool
  pub closed : Bool

-- `start`
unfoldable pub start : BudgetState → Updater
start state = record {
  state = state;
  update_in_progress = false;
  scanning = 0;
  finishing = 0;
  cleared = 0;
  update_wg = 1;
  looping = true;
  closed = false;
}

-- `asyncUpdate`
unfoldable pub async_update : Updater → Updater
async_update b = if b.update_in_progress then b else record b {
  update_in_progress = true;
  update_wg = b.update_wg + 1;
  scanning = b.scanning + 1;
}

-- A step, where a scan that succeeds gives a state in `Scanned`.
pub data Step (Scanned : BudgetState → Type 0) : Updater → Updater → Type 0 where
  -- the loop receives `true`, or a tick
  request : (b : Updater) → b.looping ≡ true → Step Scanned b (async_update b)
  -- a goroutine installs what it has scanned
  install :
      (b : Updater) (n : ℕ) (new_state : BudgetState)
      → b.scanning ≡ suc n
      → Scanned new_state
      → Step Scanned b (record b { state = new_state; scanning = n; finishing = b.finishing + 1 })
  -- a scan fails
  fail :
      (b : Updater) (n : ℕ)
      → b.scanning ≡ suc n
      → Step Scanned b (record b { scanning = n; finishing = b.finishing + 1 })
  -- `defer b.updateInProgress.Store(false)`
  clear :
      (b : Updater) (n : ℕ)
      → b.finishing ≡ suc n
      → Step Scanned b
          (record b { update_in_progress = false; finishing = n; cleared = b.cleared + 1 })
  -- `defer b.updateWg.Done()`
  done :
      (b : Updater) (n : ℕ)
      → b.cleared ≡ suc n
      → Step Scanned b (record b { cleared = n; update_wg = b.update_wg - 1 })
  -- the loop receives `false` and returns
  stop_loop :
      (b : Updater)
      → b.looping ≡ true
      → Step Scanned b (record b { looping = false; update_wg = b.update_wg - 1 })
  -- `stop` has waited for the loop and closes the channel, if it is open: a second close panics
  close :
      (b : Updater)
      → b.looping ≡ false
      → b.closed ≡ false
      → b.update_wg ≡ 0
      → Step Scanned b (record b { closed = true })

pub data Reach (Scanned : BudgetState → Type 0) (b : Updater) : Updater → Type 0 where
  here : Reach Scanned b b
  next : {c d : Updater} → Reach Scanned b c → Step Scanned c d → Reach Scanned b d

abbrev count : Bool → ℕ
count true = 1
count false = 0

-- One goroutine at most is between setting and clearing the flag; the wait group counts the
-- goroutines that are not done and the loop; and the channel is closed when none of them is left.
pub record IsConsistent (n : ℕ) (b : Updater) : Type 0 where
  pub alone : b.scanning + b.finishing ≡ count b.update_in_progress
  pub counted : b.update_wg ≡ b.scanning + b.finishing + b.cleared + count b.looping
  pub quiet : b.closed ≡ true → b.update_wg ≡ 0
  pub formed : IsState n b.state

start-IsConsistent : (n : ℕ) (state : BudgetState) → IsState n state → IsConsistent n (start state)
unfolding start
start-IsConsistent n state h = record { alone = refl; counted = refl; quiet = λ e. cc; formed = h }

module _ (n : ℕ) where
  step-IsConsistent : {b c : Updater} → Step (IsState n) b c → IsConsistent n b → IsConsistent n c
  unfolding async_update
  step-IsConsistent (request b on) h = record {
    alone = ground (arith, h.alone);
    counted = ground (arith, h.alone, h.counted);
    quiet = λ e. ground (arith, h.quiet, h.counted);
    formed = ground (arith, h.formed);
  }
  step-IsConsistent (install b k new e s) h = record {
    alone = ground (arith, h.alone);
    counted = ground (arith, h.alone, h.counted);
    quiet = λ e. ground (arith, h.quiet e);
    formed = s;
  }
  step-IsConsistent (fail b k e) h = record {
    alone = ground (arith, h.alone);
    counted = ground (arith, h.alone, h.counted);
    quiet = λ e. ground (arith, h.quiet e);
    formed = h.formed;
  }
  step-IsConsistent (clear b k e) h = record {
    alone = ground (arith, h.alone);
    counted = ground (arith, h.alone, h.counted);
    quiet = λ e. ground (arith, h.quiet e);
    formed = h.formed;
  }
  step-IsConsistent (done b k e) h = record {
    alone = ground (arith, h.alone);
    counted = ground (arith, h.alone, h.counted);
    quiet = λ x. ground (arith, h.quiet x);
    formed = h.formed;
  }
  step-IsConsistent (stop_loop b e) h = record {
    alone = ground (arith, h.alone);
    counted = ground (arith, h.alone, h.counted);
    quiet = λ x. ground (arith, h.quiet x);
    formed = h.formed;
  }
  step-IsConsistent (close b e o z) h = record {
    alone = ground (arith, h.alone);
    counted = ground (arith, h.alone, h.counted);
    quiet = λ x. z;
    formed = h.formed;
  }

  -- If the first state and each state that is scanned have an int64 for each campaign, then
  -- however requests, ticks, scans that succeed or fail, and the stop come: one goroutine at most
  -- is between setting and clearing `updateInProgress`, exactly when it is set; the wait group
  -- counts the goroutines that are left and the loop; if the channel is closed, it counts none;
  -- and the state that auctions see has an int64 for each campaign.
  pub Reach-IsConsistent :
      {state : BudgetState} {b : Updater}
      → IsState n state
      → Reach (IsState n) (start state) b
      → IsConsistent n b
  Reach-IsConsistent {state} h here = start-IsConsistent n state h
  Reach-IsConsistent h (next r s) = step-IsConsistent s (Reach-IsConsistent h r)
