-- ===== src/Id/Hex.antt =====
-- `hex.EncodeToString`, `hex.DecodeString` and `FromHex` of apps/bidder/code/id/id.go, over the
-- codes of the characters.
use guidance_for_building_a.Common.{
  copy_full, ap, ℕ, ◌+◌, ◌-◌, ◌*◌, ◌/◌, ◌%◌, ◌<◌, ◌≡◌, refl, List, [], ◌∷◌, Option, none, some,
  ◌&&◌, ltb, leb, if◌then◌else◌, All, length, arith, ◌>>=◌,
}
use guidance_for_building_a.Id.{ItemId, from_byte_slice, zero_id}

-- A digit of `0123456789abcdef`.
unfoldable pub hex_digit : ℕ → ℕ
hex_digit n = if ltb n 10 then b'0' + n else b'a' + n - 10

-- The value of a digit, upper case letters included.
unfoldable pub from_hex_char : ℕ → Option ℕ
from_hex_char c =
    if leb b'0' c && leb c b'9'
    then some (c - b'0')
    else if leb b'a' c && leb c b'f'
    then some (c - b'a' + 10)
    else if leb b'A' c && leb c b'F'
    then some (c - b'A' + 10)
    else none

-- `hex.EncodeToString`
unfoldable pub encode_to_string : List ℕ → List ℕ
unfolding hex_digit
encode_to_string [] = []
encode_to_string (b ∷ bs) = hex_digit (b / 16) ∷ hex_digit (b % 16) ∷ encode_to_string bs

-- `hex.DecodeString`; `none` is an error, a digit that is none or one too few.
unfoldable pub decode_string : List ℕ → Option (List ℕ)
unfolding from_hex_char
decode_string [] = some []
decode_string (a ∷ []) = none
decode_string (a ∷ b ∷ cs) = do
  hi ← from_hex_char a
  lo ← from_hex_char b
  rest ← decode_string cs
  some ((hi * 16 + lo) ∷ rest)

-- `FromHex`; `none` is its panic.
unfoldable pub from_hex : List ℕ → Option ItemId
unfolding from_byte_slice
from_hex hx = do b ← decode_string hx; some (from_byte_slice b)

-- `FromHexes`
unfoldable pub from_hexes : List (List ℕ) → Option (List ItemId)
unfolding from_hex
from_hexes [] = some []
from_hexes (s ∷ hxs) = do i ← from_hex s; is ← from_hexes hxs; some (i ∷ is)

from_hex_char-hex_digit : (n : ℕ) → n < 16 → from_hex_char (hex_digit n) ≡ some n
unfolding from_hex_char hex_digit
from_hex_char-hex_digit n h = ground arith

-- Decoding gives back the bytes that were encoded.
pub decode_string-encode_to_string :
    (bs : List ℕ) → All (λ b. b < 256) bs → decode_string (encode_to_string bs) ≡ some bs
unfolding decode_string encode_to_string
decode_string-encode_to_string [] h = refl
decode_string-encode_to_string (b ∷ bs) h = ground (
  arith,
  from_hex_char-hex_digit (b / 16),
  from_hex_char-hex_digit (b % 16),
  decode_string-encode_to_string bs h.1,
)

-- The hexadecimal text of an identifier, 16 bytes, is read as the identifier.
pub from_hex-encode_to_string :
    (i : ItemId) → length i ≡ 16 → All (λ b. b < 256) i → from_hex (encode_to_string i) ≡ some i
unfolding from_hex
from_hex-encode_to_string i n h =
    rw (decode_string-encode_to_string i h)
      (unfold from_byte_slice in ap some (copy_full zero_id i (omega arith)))
