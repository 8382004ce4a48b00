-- ===== src/Database/LowLevel.antt =====
-- The query of a device in apps/bidder/code/database/dynamodb/low_level/get.go. The credentials, the
-- template, the signer, the HTTP client, the JSON parser and base64 are parameters: what they answer is
-- an argument.
pub mod Surplus
mod Tests
use guidance_for_building_a.Common.{
  ℕ, ◌+◌, ◌*◌, ◌/◌, ◌≡◌, List, [], ◌++◌, Bool, true, false, ◌||◌, Option, none, some, ltb,
  if◌then◌else◌, length, replicate, take, drop,
}
use guidance_for_building_a.Id.{ItemId}
use guidance_for_building_a.Api.{Error, other, timeout, item_not_found}
use guidance_for_building_a.Database.Devices.{unmarshall_audiences}

-- `encoding/base64`: the text of bytes, and the bytes of a text as far as it is one, with an error if
-- it is not.
pub record Base64 : Type 0 where
  pub encode : List ℕ → List ℕ
  pub decode : List ℕ → List ℕ × Option Error

-- `DecodedLen` of the standard encoding, which pads.
abbrev pub decoded_len : ℕ → ℕ
decoded_len n = n / 4 * 3

-- What the parser finds in a body: the message, and the text at `Item`, `a`, `B`.
pub record Body : Type 0 where
  pub message : Option (List ℕ)
  pub audiences : Option (List ℕ)

-- `resizeBuffer`, on the array behind the buffer: the array, and the buffer.
unfoldable pub resize_buffer : List ℕ → ℕ → List ℕ × List ℕ
resize_buffer array n =
    if ltb (length array) n then (replicate n 0, replicate n 0) else (array, take n array)

-- What `Decode` leaves in the buffer.
abbrev pub overwrite : List ℕ → List ℕ → List ℕ
overwrite buffer bytes = bytes ++ drop (length bytes) buffer

module _ (base64 : Base64) (message_error : List ℕ → Error) where
  -- From the text on: the result, and the array behind the buffer.
  unfoldable pub read_audiences :
      List ℕ → List ℕ → List ItemId → (List ItemId × Option Error) × List ℕ
  read_audiences array text result =
      let (array', buffer) = resize_buffer array (decoded_len (length text)) in
      let (bytes, e) = base64.decode text in
      (
        elim e [
          | some err ↦ (result, some err)
          | none ↦ (unmarshall_audiences (overwrite buffer bytes) result, none)
        ],
        overwrite array' bytes,
      )

  -- `parseResponse`
  unfoldable pub parse_response :
      (List ℕ → Option Body)
      → Error
      → List ℕ
      → List ℕ
      → List ItemId
      → (List ItemId × Option Error) × List ℕ
  parse_response parse parse_error array body result = elim (parse body) [
    | none ↦ ((result, some parse_error), array)
    | some v ↦ elim v.message [
      | some message ↦ ((result, some (message_error message)), array)
      | none ↦ elim v.audiences [
        | none ↦ ((result, some item_not_found), array)
        | some text ↦ read_audiences array text result
      ]
    ]
  ]

-- An error of the HTTP client, with what `errors.Is` and the text say of it.
pub record HttpError : Type 0 where
  pub timed_out : Bool
  pub tls_handshake_timed_out : Bool
  pub dial_timed_out : Bool
  pub io_timeout_text : Bool
  pub error : Error

unfoldable pub http_error : HttpError → Error
http_error e =
    if e.timed_out || e.tls_handshake_timed_out || e.dial_timed_out || e.io_timeout_text
    then timeout
    else e.error

-- What comes before the parser: an error of the credentials, the template or the signer, an error of
-- the client, or a body.
pub data Exchange : Type 0 where
  not_sent : Error → Exchange
  refused : HttpError → Exchange
  answered : List ℕ → Exchange

module _ (base64 : Base64) (message_error : List ℕ → Error) (parse : List ℕ → Option Body)
    (parse_error : Error) where
  -- `getDevice`
  unfoldable pub get_device :
      Exchange → List ℕ → List ItemId → (List ItemId × Option Error) × List ℕ
  get_device (not_sent e) array result = ((result, some e), array)
  get_device (refused e) array result = ((result, some (http_error e)), array)
  get_device (answered body) array result =
      parse_response base64 message_error parse parse_error array body result
