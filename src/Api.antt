-- ===== src/Api.antt =====
-- The items of the database and its errors: apps/bidder/code/database/api.
use guidance_for_building_a.Common.{ℕ, ◌+◌, List, Bool, ◌&&◌, Option}
use guidance_for_building_a.Id.{ItemId, len}

-- The sentinel errors, and any other. `errors.Wrap` keeps what `errors.Is` sees.
pub data Error : Type 0 where
  item_not_found timeout bad_response_format : Error
  other : ℕ → Error

pub data Result {ℓ} (A : Type ℓ) : Type ℓ where
  ok : A → Result A
  err : Error → Result A

infixl 5 ◌>>=◌
abbrev pub ◌>>=◌ {ℓ κ} : {A : Type ℓ} {B : Type κ} → Result A → (A → Result B) → Result B
ok a >>= f = f a
err e >>= f = err e

pub record Audience : Type 0 where
  pub audience_id : ItemId
  pub campaign_ids : List ItemId

pub record Budget : Type 0 where
  pub campaign_id : ItemId
  -- an int64
  pub available : ℕ

-- `BudgetByteSize`
abbrev pub budget_byte_size : ℕ
budget_byte_size = len + 8

pub record Campaign : Type 0 where
  pub hex_id : List ℕ
  pub id : ItemId
  -- an int64
  pub max_cpm : ℕ

pub record Device : Type 0 where
  pub audience_ids : List ItemId

-- `validation.Required` on an identifier and on an int64.
pub record Validation : Type 0 where
  pub required_id : ItemId → Bool
  pub required_int64 : ℕ → Bool

-- `IsValid`
unfoldable pub is_valid : Validation → Campaign → Bool
is_valid v c = v.required_id c.id && v.required_int64 c.max_cpm

-- What a `Scan` or `FetchAll` hands to its consumer, in the order of the calls, and the error with
-- which it ends.
pub record Scan (A : Type 0) : Type 0 where
  pub items : List A
  pub error : Option Error
