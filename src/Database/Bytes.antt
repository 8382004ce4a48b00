-- ===== src/Database/Bytes.antt =====
-- `binary.LittleEndian`: eight bytes of an unsigned 64-bit number.
use guidance_for_building_a.Common.{
  ℕ, zero, suc, ◌+◌, ◌*◌, ◌/◌, ◌%◌, ◌≡◌, refl, List, [], ◌∷◌, ◌++◌, Option, none, some, length,
  take, ltb, if◌then◌else◌, arith,
}
use guidance_for_building_a.Common.Int64.{IsInt64}

unfoldable pub from_bytes : List ℕ → ℕ
from_bytes [] = 0
from_bytes (b ∷ bs) = b + 256 * from_bytes bs

unfoldable pub to_bytes : ℕ → ℕ → List ℕ
to_bytes zero n = []
to_bytes (suc k) n = n % 256 ∷ to_bytes k (n / 256)

-- `PutUint64`, of a whole buffer
unfoldable pub put_uint64 : ℕ → List ℕ
put_uint64 n = to_bytes 8 n

-- `Uint64`; `none` is the panic on fewer than eight bytes.
unfoldable pub uint64 : List ℕ → Option ℕ
uint64 b = if ltb (length b) 8 then none else some (from_bytes (take 8 b))

pub length-put_uint64 : (n : ℕ) → length (put_uint64 n) ≡ 8
unfolding put_uint64 to_bytes
length-put_uint64 n = refl

-- What is put is read again, whatever follows it.
pub uint64-put_uint64 : (n : ℕ) (rest : List ℕ) → IsInt64 n → uint64 (put_uint64 n ++ rest) ≡ some n
unfolding uint64 put_uint64 to_bytes from_bytes
uint64-put_uint64 n rest h = ground arith
