-- ===== src/Handler/Read.antt =====
-- bidhandler/read_request.go of apps/bidder/code: from the body of a bid request to the request of the
-- auction, for both versions of OpenRTB.
use Prim.Native.Char.{code}
use Prim.Native.String.{String}
use guidance_for_building_a.Common.{ℕ, List, [], ◌∷◌, Option, none, some, map, copy, if◌then◌else◌}
use guidance_for_building_a.Id.{ItemId, zero_id, same}
use guidance_for_building_a.Auction.Run.{Item, Request, Version, open_rtb2, open_rtb3}

-- The bytes of an ASCII text.
abbrev pub codes : String → List ℕ
codes String.[] = []
codes (String.◌∷◌ c s) = code c ∷ codes s

-- The JSON parser and the UUID parser. `get_string_bytes` gives no bytes and `get_array` no values
-- where there is no such member, or one of another type.
pub record Parsers : Type 1 where
  pub Value : Type 0
  pub parse_bytes : List ℕ → Option Value
  pub get : List String → Value → Option Value
  pub get_string_bytes : List String → Value → List ℕ
  pub get_array : String → Value → List Value
  pub uuid : List ℕ → Option (List ℕ)

pub data ReadError : Type 0 where
  bad_version parse_error empty_body empty_id malformed_device no_items : ReadError

pub data Read : Type 0 where
  request : Request → Read
  rejected : ReadError → Read

-- `openrtb.OpenRTB3_0` and `openrtb.OpenRTB2_5`
unfoldable pub version_of : List ℕ → Option Version
version_of v =
    if same v (codes "3.0")
    then some open_rtb3
    else if same v (codes "2.5")
    then some open_rtb2
    else none

-- The version of the header, or the configured one where the header is missing.
unfoldable pub request_version : List ℕ → List ℕ → List ℕ
request_version configured [] = configured
request_version configured (c ∷ cs) = c ∷ cs

module _ (p : Parsers) where
  -- `parseDeviceID`
  unfoldable pub parse_device_id : List ℕ → Option ItemId
  parse_device_id [] = some zero_id
  parse_device_id (x ∷ xs) = elim (p.uuid (x ∷ xs)) [
    | none ↦ none
    | some bytes ↦ some (copy zero_id bytes)
  ]

  -- The loop over the items.
  unfoldable pub items_of : List p.Value → List Item
  items_of vs = map (λ v. record { id = p.get_string_bytes ("id" ∷ []) v }) vs

  -- The tests that both versions share, in their order: the identifier, the device, the items.
  unfoldable pub check_request : Version → List ℕ → List ℕ → List p.Value → Read
  check_request version [] ifa values = rejected empty_id
  check_request version (i ∷ is) ifa values = elim (parse_device_id ifa) [
    | none ↦ rejected malformed_device
    | some device_id ↦ elim values [
      | [] ↦ rejected no_items
      | v ∷ vs ↦ request (record {
        id = i ∷ is;
        item = items_of (v ∷ vs);
        device_id = device_id;
        open_rtb_version = version;
      })
    ]
  ]

  -- `parseBidRequest3`
  unfoldable pub parse_bid_request3 : List ℕ → Read
  parse_bid_request3 byte_request = elim (p.parse_bytes byte_request) [
    | none ↦ rejected parse_error
    | some root ↦ elim (p.get ("openrtb" ∷ "request" ∷ []) root) [
      | none ↦ rejected empty_body
      | some v ↦
          check_request open_rtb3 (p.get_string_bytes ("id" ∷ []) v)
            (p.get_string_bytes ("context" ∷ "device" ∷ "ifa" ∷ []) v) (p.get_array "item" v)
    ]
  ]

  -- `parseBidRequest2`
  unfoldable pub parse_bid_request2 : List ℕ → Read
  parse_bid_request2 byte_request = elim (p.parse_bytes byte_request) [
    | none ↦ rejected parse_error
    | some v ↦
        check_request open_rtb2 (p.get_string_bytes ("id" ∷ []) v)
          (p.get_string_bytes ("device" ∷ "ifa" ∷ []) v) (p.get_array "imp" v)
  ]

  -- `switch openRTBVersion`
  abbrev pub parse_version : Option Version → List ℕ → Read
  parse_version (some open_rtb3) byte_request = parse_bid_request3 byte_request
  parse_version (some open_rtb2) byte_request = parse_bid_request2 byte_request
  parse_version none byte_request = rejected bad_version

  -- `readRequest`
  unfoldable pub read_request : List ℕ → List ℕ → List ℕ → Read
  read_request configured header byte_request =
      parse_version (version_of (request_version configured header)) byte_request
