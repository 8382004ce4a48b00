-- ===== src/Database/Budgets.antt =====
-- The bytes of a batch of budgets: repositories/budget/unmarshall_budget.go and test_tools.go of
-- apps/bidder/code/database/dynamodb, and the loops of aerospike/budget.go.
pub mod RoundTrip
use guidance_for_building_a.Common.{
  ℕ, zero, suc, ◌+◌, ◌%◌, List, [], ◌∷◌, ◌++◌, Bool, Option, none, some, length, copy, drop, ◌==◌,
  if◌then◌else◌, ◌>>=◌,
}
use guidance_for_building_a.Id.{ItemId, len, zero_id}
use guidance_for_building_a.Api.{Budget, budget_byte_size, Error, bad_response_format}
use guidance_for_building_a.Database.Bytes.{put_uint64, uint64}
use guidance_for_building_a.Database.Consumer.{Consumer}

-- An attribute of an item: bytes, or of another type.
pub data Attribute : Type 0 where
  binary : List ℕ → Attribute
  other_type : Attribute

module _ {S : Type 0} (consume : Consumer S Budget) where
  -- `for offset := 0; offset < len(budgets); offset += api.BudgetByteSize`, over the bytes from
  -- the offset on; `campaign_id` is what `item` held. One round for each byte is enough. `none` is
  -- the panic of `Uint64`.
  unfoldable pub each_budget : ℕ → ItemId → List ℕ → S → Option (S × Option Error)
  each_budget zero campaign_id budgets s = some (s, none)
  each_budget (suc fuel) campaign_id [] s = some (s, none)
  each_budget (suc fuel) campaign_id (x ∷ xs) s = do
    let id = copy campaign_id (x ∷ xs)
    available ← uint64 (drop len (x ∷ xs))
    let (s', e) = consume s (record { campaign_id = id; available = available })
    let rest = each_budget fuel id (drop budget_byte_size (x ∷ xs)) s'
    elim e [ none ↦ rest | some err ↦ some (s', some err) ]

  unfoldable pub unmarshall_budgets : List ℕ → S → Option (S × Option Error)
  unmarshall_budgets budgets s =
      if length budgets % budget_byte_size == 0
      then each_budget (length budgets) zero_id budgets s
      else some (s, some bad_response_format)

  -- `unmarshallBudgetAttributesV1`; an attribute of another type has no bytes.
  unfoldable pub unmarshall_budget_attributes_v1 : Option Attribute → S → Option (S × Option Error)
  unmarshall_budget_attributes_v1 none s = some (s, some bad_response_format)
  unmarshall_budget_attributes_v1 (some (binary budgets)) s = unmarshall_budgets budgets s
  unmarshall_budget_attributes_v1 (some other_type) s = unmarshall_budgets [] s

  -- `unmarshallBudgetAttributesV2`
  unfoldable pub unmarshall_budget_attributes_v2 : Option Attribute → S → Option (S × Option Error)
  unmarshall_budget_attributes_v2 none s = some (s, some bad_response_format)
  unmarshall_budget_attributes_v2 (some other_type) s = some (s, some bad_response_format)
  unmarshall_budget_attributes_v2 (some (binary budgets)) s = unmarshall_budgets budgets s

  -- The inner loop of Aerospike's `scan` and `getAll`, which starts from a new identifier each time.
  unfoldable pub each_record : ℕ → List ℕ → S → Option (S × Option Error)
  each_record zero batch_bin s = some (s, none)
  each_record (suc fuel) [] s = some (s, none)
  each_record (suc fuel) (x ∷ xs) s = do
    available ← uint64 (drop len (x ∷ xs))
    let (s', e) = consume s (record { campaign_id = copy zero_id (x ∷ xs); available = available })
    let rest = each_record fuel (drop budget_byte_size (x ∷ xs)) s'
    elim e [ none ↦ rest | some err ↦ some (s', some err) ]

  unfoldable pub read_batch : List ℕ → S → Option (S × Option Error)
  read_batch batch_bin s = each_record (length batch_bin) batch_bin s

-- `ItemBatch` and `ItemBatchDB`
pub record ItemBatch : Type 0 where
  pub id : ℕ
  pub batch : List Budget

pub record ItemBatchDb : Type 0 where
  pub id : ℕ
  pub batch_size : ℕ
  pub batch : List ℕ

unfoldable pub compress_all : List Budget → List ℕ
compress_all [] = []
compress_all (b ∷ bs) = b.campaign_id ++ (put_uint64 b.available ++ compress_all bs)

-- `ItemBatchCompress`
unfoldable pub item_batch_compress : ItemBatch → ItemBatchDb
item_batch_compress bb = record {
  id = bb.id;
  batch_size = length bb.batch;
  batch = compress_all bb.batch;
}

-- The loop of `ItemBatchDecompress`.
unfoldable pub decompress_all : ℕ → List ℕ → Option (List Budget)
decompress_all zero bytes = some []
decompress_all (suc n) bytes = do
  available ← uint64 (drop len bytes)
  rest ← decompress_all n (drop budget_byte_size bytes)
  some (record { campaign_id = copy zero_id bytes; available = available } ∷ rest)

-- `ItemBatchDecompress`; `none` is a panic.
unfoldable pub item_batch_decompress : ItemBatchDb → Option ItemBatch
item_batch_decompress bb =
    if bb.batch_size == 0 then some (record { id = bb.id; batch = [] }) else (do
      batch ← decompress_all bb.batch_size bb.batch
      some (record { id = bb.id; batch = batch }))
