-- ===== src/Datagen/Config.antt =====
-- `Config` and `Resolve` of tools/datagen/pkg/generator/shared.go. An int and an int64 are bit
-- patterns; an empty text is the absence of an output.
use guidance_for_building_a.Common.{ℕ, ◌^◌, ◌≤◌, ◌<◌, ◌≢◌, ◌&&◌, ◌==◌, ltb, if◌then◌else◌, arith}
use guidance_for_building_a.Common.Int64.{lt64, biased}

pub data Output : Type 0 where
  no_output stdout dynamodb aerospike unknown : Output

pub record Config : Type 0 where
  pub output : Output
  pub key_low : ℕ
  pub key_high : ℕ
  pub min_audiences : ℕ
  pub max_audiences : ℕ
  pub max_audience_id : ℕ
  pub dynamodb_concurrency : ℕ
  pub budget_batch_size : ℕ
  pub min_bid_price : ℕ
  pub max_bid_price : ℕ
  pub min_budget : ℕ
  pub max_budget : ℕ

-- `if value == 0 { value = default }`
abbrev or_default : ℕ → ℕ → ℕ
or_default default value = if value == 0 then default else value

-- `if value < 1 { value = default }`, which is the test `value <= 0` as well.
abbrev or_positive : ℕ → ℕ → ℕ
or_positive default value = if lt64 value 1 then default else value

-- `if high < low { high = low }`
abbrev at_least : ℕ → ℕ → ℕ
at_least low high = if lt64 high low then low else high

abbrev default_min_audiences : ℕ
default_min_audiences = 10

abbrev default_max_audiences : ℕ
default_max_audiences = 20

-- The audiences' bounds after the chain of tests.
unfoldable pub resolve_audiences : ℕ → ℕ → ℕ × ℕ
unfolding lt64
resolve_audiences low high =
    if low == 0 && high == 0
    then (default_min_audiences, default_max_audiences)
    else if low == 0
    then (if lt64 high default_min_audiences then high else default_min_audiences, high)
    else if lt64 high low
    then (high, high)
    else (low, high)

-- `if c.MaxAudienceID < uint64(c.MaxAudiences)`, a test of unsigned numbers
unfoldable pub resolve_max_audience_id : ℕ → ℕ → ℕ
resolve_max_audience_id max_audiences max_audience_id =
    let id = or_default 100000 max_audience_id in if ltb id max_audiences then max_audiences else id

abbrev or_stdout : Output → Output
or_stdout no_output = stdout
or_stdout stdout = stdout
or_stdout dynamodb = dynamodb
or_stdout aerospike = aerospike
or_stdout unknown = unknown

-- `Resolve`
unfoldable pub resolve : Config → Config
unfolding resolve_audiences resolve_max_audience_id lt64
resolve c =
    let (low, high) = resolve_audiences c.min_audiences c.max_audiences in
    let price = or_positive 100000 c.min_bid_price in
    let budget = or_positive 500000000 c.min_budget in
    record {
      output = or_stdout c.output;
      key_low = or_default 1 c.key_low;
      key_high = or_default 1000000 c.key_high;
      min_audiences = low;
      max_audiences = high;
      max_audience_id = resolve_max_audience_id high c.max_audience_id;
      dynamodb_concurrency = or_positive 1 c.dynamodb_concurrency;
      budget_batch_size = or_default 170 c.budget_batch_size;
      min_bid_price = price;
      max_bid_price = at_least price (or_positive 10000000 c.max_bid_price);
      min_budget = budget;
      max_budget = at_least budget (or_positive 1500000000 c.max_budget);
    }

-- An int64 from 1 on, and one that is not below it.
abbrev pub IsRange : ℕ → ℕ → Type 0
IsRange low high = (0 < low) × (low ≤ high) × (high < 2 ^ 63)

pub record IsResolved (c : Config) : Type 0 where
  pub has_output : c.output ≢ no_output
  pub keys : (0 < c.key_low) × (0 < c.key_high)
  pub audiences : biased c.min_audiences ≤ biased c.max_audiences
  pub audience_ids : (c.max_audiences ≤ c.max_audience_id) × (0 < c.max_audience_id)
  pub workers : (0 < c.dynamodb_concurrency) × (c.dynamodb_concurrency < 2 ^ 63)
  pub batches : 0 < c.budget_batch_size
  pub prices : IsRange c.min_bid_price c.max_bid_price
  pub budgets : IsRange c.min_budget c.max_budget

pub record IsWords (c : Config) : Type 0 where
  pub min_audiences : c.min_audiences < 2 ^ 64
  pub max_audiences : c.max_audiences < 2 ^ 64
  pub concurrency : c.dynamodb_concurrency < 2 ^ 64
  pub min_bid_price : c.min_bid_price < 2 ^ 64
  pub max_bid_price : c.max_bid_price < 2 ^ 64
  pub min_budget : c.min_budget < 2 ^ 64
  pub max_budget : c.max_budget < 2 ^ 64

resolve_audiences-le :
    (low high : ℕ)
    → low < 2 ^ 64
    → high < 2 ^ 64
    → biased (resolve_audiences low high).0 ≤ biased (resolve_audiences low high).1
unfolding resolve_audiences lt64
resolve_audiences-le low high hl hh = ground arith

or_positive_pos :
    (default value : ℕ)
    → 0 < default
    → default < 2 ^ 63
    → value < 2 ^ 64
    → (0 < or_positive default value) × (or_positive default value < 2 ^ 63)
unfolding lt64
or_positive_pos default value h h' w = ground arith

at_least-IsRange :
    (low high : ℕ)
    → 0 < low
    → low < 2 ^ 63
    → 0 < high
    → high < 2 ^ 63
    → IsRange low (at_least low high)
unfolding lt64
at_least-IsRange low high a b c d = ground arith

or_stdout-ne : (o : Output) → or_stdout o ≢ no_output
or_stdout-ne no_output = λ e. cc e
or_stdout-ne stdout = λ e. cc e
or_stdout-ne dynamodb = λ e. cc e
or_stdout-ne aerospike = λ e. cc e
or_stdout-ne unknown = λ e. cc e

-- If the values are words of 64 bits, then after `Resolve` there is an output, neither bound of the
-- keys is 0, `MinAudiences` is at most `MaxAudiences` as an int, `MaxAudienceID` is not 0 and at least
-- `MaxAudiences` as a uint64, there is at least one worker, the batch size is not 0, and the bid
-- prices and the budgets have a lower bound of at least 1 and an upper bound that is not below it.
pub resolve-IsResolved : (c : Config) → IsWords c → IsResolved (resolve c)
unfolding resolve resolve_max_audience_id
resolve-IsResolved c w =
    let price =
      or_positive_pos 100000 c.min_bid_price (omega arith) (omega arith) w.min_bid_price in
    let price' =
      or_positive_pos 10000000 c.max_bid_price (omega arith) (omega arith) w.max_bid_price in
    let budget = or_positive_pos 500000000 c.min_budget (omega arith) (omega arith) w.min_budget in
    let budget' =
      or_positive_pos 1500000000 c.max_budget (omega arith) (omega arith) w.max_budget in
    record {
      has_output = or_stdout-ne c.output;
      keys = ground arith;
      audiences =
          resolve_audiences-le c.min_audiences c.max_audiences w.min_audiences w.max_audiences;
      audience_ids = ground arith;
      workers = or_positive_pos 1 c.dynamodb_concurrency (omega arith) (omega arith) w.concurrency;
      batches = ground arith;
      prices = at_least-IsRange _ _ price.0 price.1 price'.0 price'.1;
      budgets = at_least-IsRange _ _ budget.0 budget.1 budget'.0 budget'.1;
    }
