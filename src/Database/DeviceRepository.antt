-- ===== src/Database/DeviceRepository.antt =====
-- `Get` of the device repositories: repositories/device/device.go of
-- apps/bidder/code/database/dynamodb, and device.go of apps/bidder/code/database/aerospike. What the
-- SDKs answer is an argument.
use guidance_for_building_a.Common.{
  ℕ, ◌≡◌, refl, ap, List, ◌++◌, Bool, true, Option, none, some, All, length, if◌then◌else◌,
}
use guidance_for_building_a.Id.{ItemId, len}
use guidance_for_building_a.Api.{Error, timeout, item_not_found}
use guidance_for_building_a.Database.Budgets.{Attribute, binary}
use guidance_for_building_a.Database.Devices.{
  unmarshall_audiences, unmarshall_device_attributes_v1, unmarshall_device_attributes_v2, concat,
  unmarshall_device-concat, unmarshall_audiences-concat,
}

-- The answer to `GetItem`: an error, and whether it is that of the deadline; no item; or an item with
-- the attribute of its audiences, if it has one.
pub data ItemAnswer : Type 0 where
  failed : Bool → Error → ItemAnswer
  no_item : ItemAnswer
  item : Option Attribute → ItemAnswer

-- `getDeviceDAX`
unfoldable pub get_device_dax : ItemAnswer → List ItemId → List ItemId × Option Error
get_device_dax (failed deadline_exceeded e) result =
    (result, some (if deadline_exceeded then timeout else e))
get_device_dax no_item result = (result, some item_not_found)
get_device_dax (item audiences) result = unmarshall_device_attributes_v1 audiences result

-- `getDeviceDynamoDB`
unfoldable pub get_device_dynamo_db : ItemAnswer → List ItemId → List ItemId × Option Error
get_device_dynamo_db (failed deadline_exceeded e) result =
    (result, some (if deadline_exceeded then timeout else e))
get_device_dynamo_db no_item result = (result, some item_not_found)
get_device_dynamo_db (item audiences) result = unmarshall_device_attributes_v2 audiences result

-- The configured way to the database: the low-level query, with an error of its initialization or
-- what it gives, or one of the SDKs.
pub data Query : Type 0 where
  no_query : Error → Query
  low_level : (List ItemId → List ItemId × Option Error) → Query
  dax : ItemAnswer → Query
  dynamo_db : ItemAnswer → Query

-- `Repository.Get`
unfoldable pub get : Query → List ItemId → List ItemId × Option Error
get (no_query e) result = (result, some e)
get (low_level query) result = query result
get (dax answer) result = get_device_dax answer result
get (dynamo_db answer) result = get_device_dynamo_db answer result

-- The answer of Aerospike: an error, by its result code, or the bin of a record, if it has one.
pub data RecordAnswer : Type 0 where
  no_key : Error → RecordAnswer
  timed_out key_not_found : RecordAnswer
  record_error : Error → RecordAnswer
  bin : Option (List ℕ) → RecordAnswer

-- `Get` of Aerospike; `none` is the panic on a missing bin.
unfoldable pub get_aerospike : RecordAnswer → List ItemId → Option (List ItemId × Option Error)
get_aerospike (no_key e) result = some (result, some e)
get_aerospike timed_out result = some (result, some timeout)
get_aerospike key_not_found result = some (result, some item_not_found)
get_aerospike (record_error e) result = some (result, some e)
get_aerospike (bin none) result = none
get_aerospike (bin (some audiences)) result = some (unmarshall_audiences audiences result, none)

-- What a reader gives for the answers `stored`, `missing` and `late`: the audiences one by one behind
-- the result, that the item is not found, and a timeout.
abbrev pub Reads :
    {A : Type 0}
    → (A → List ItemId → Option (List ItemId × Option Error))
    → List ItemId
    → List ItemId
    → A
    → A
    → A
    → Type 0
Reads reader is result stored missing late =
    (reader stored result ≡ some (result ++ is, none))
    × (reader missing result ≡ some (result, some item_not_found))
    × (reader late result ≡ some (result, some timeout))

abbrev pub get_some :
    (ItemAnswer → Query) → ItemAnswer → List ItemId → Option (List ItemId × Option Error)
get_some sdk a result = some (get (sdk a) result)

-- A device whose audiences are stored as identifiers of 16 bytes one behind the other is read alike by
-- DAX, by DynamoDB and from Aerospike: its audiences are appended to the result in that order; without
-- the item each says that it is not found, and at its deadline each says that it timed out; none
-- panics, and neither error changes the result.
pub get-Reads :
    (is result : List ItemId) (e : Error)
    → All (λ (i : ItemId). length i ≡ len) is
    → Reads (get_some dax) is result (item (some (binary (concat is)))) no_item (failed true e)
      × Reads
          (get_some dynamo_db)
          is
          result
          (item (some (binary (concat is))))
          no_item
          (failed true e)
      × Reads get_aerospike is result (bin (some (concat is))) key_not_found timed_out
unfolding get get_device_dax get_device_dynamo_db get_aerospike
get-Reads is result e h = (
  (ap some (unmarshall_device-concat is result h).0, refl, refl),
  (ap some (unmarshall_device-concat is result h).1, refl, refl),
  (ap (λ l. some (l, none)) (unmarshall_audiences-concat is result h), refl, refl),
)
