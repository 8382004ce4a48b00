-- ===== src/Datagen/Budgets.antt =====
-- `BudgetGenerator` and `budgetBatchCompress` of tools/datagen/pkg/generator/budget.go. What is sent
-- to the channel is listed in order.
pub mod Batches
pub mod Scanned
use guidance_for_building_a.Common.{
  ℕ, zero, ◌+◌, List, [], ◌∷◌, ◌++◌, Option, none, some, length, ◌==◌, if◌then◌else◌, ◌>>=◌,
}
use guidance_for_building_a.Id.{ItemId}
use guidance_for_building_a.Api.{Budget}
use guidance_for_building_a.Database.Bytes.{put_uint64}
use guidance_for_building_a.Datagen.Config.{Config}
use guidance_for_building_a.Datagen.Keys.{each_key}
use guidance_for_building_a.Datagen.Encryptor.{Cipher, encrypt}
use guidance_for_building_a.Datagen.Records.{amount_between}

pub record BudgetBatch : Type 0 where
  pub id : ℕ
  pub batch : List Budget

pub record BudgetBatchDb : Type 0 where
  pub id : ℕ
  pub batch_size : ℕ
  pub batch : List ℕ

-- The loop of `budgetBatchCompress`.
unfoldable pub append_budgets : List ℕ → List Budget → List ℕ
append_budgets bytes [] = bytes
append_budgets bytes (b ∷ bs) =
    append_budgets ((bytes ++ b.campaign_id) ++ put_uint64 b.available) bs

-- `budgetBatchCompress`
unfoldable pub budget_batch_compress : BudgetBatch → BudgetBatchDb
budget_batch_compress bb = record {
  id = bb.id;
  batch_size = length bb.batch;
  batch = append_budgets [] bb.batch;
}

-- The current batch and what was sent.
pub record Generating : Type 0 where
  pub current_batch : BudgetBatch
  pub out : List BudgetBatchDb

-- One budget, with batches of `size`.
unfoldable pub add_budget : ℕ → Generating → Budget → Generating
add_budget size g budget =
    let batch = g.current_batch.batch ++ budget ∷ [] in
    if length batch == size
    then record {
      current_batch = record { id = g.current_batch.id + 1; batch = [] };
      out = g.out ++ budget_batch_compress (record { id = g.current_batch.id; batch = batch }) ∷ [];
    }
    else record g { current_batch = record { id = g.current_batch.id; batch = batch } }

-- `if len(currentBatch.Batch) > 0` after the loop
unfoldable pub send_last : List BudgetBatchDb → ℕ → List Budget → List BudgetBatchDb
send_last out id [] = out
send_last out id (b ∷ bs) = out ++ budget_batch_compress (record { id = id; batch = b ∷ bs }) ∷ []

module _ (c : Cipher) (cfg : Config) (int63 : ℕ → ℕ) where
  unfoldable pub budget_of : ℕ → Option Budget
  budget_of i = do
    available ← amount_between (int63 i) cfg.min_budget cfg.max_budget
    some (record { campaign_id = encrypt c i; available = available })

  unfoldable pub budget_body : ℕ → Generating → Option Generating
  budget_body i g = do budget ← budget_of i; some (add_budget cfg.budget_batch_size g budget)

  -- `BudgetGenerator`
  unfoldable pub budget_generator : ℕ → Option (List BudgetBatchDb)
  budget_generator fuel = do
    g ←
        each_key budget_body fuel cfg.key_low cfg.key_high
          (record { current_batch = record { id = 1; batch = [] }; out = [] })
    some (send_last g.out g.current_batch.id g.current_batch.batch)
