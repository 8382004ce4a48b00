-- ===== src/Common/Int64.antt =====
-- Go's int64, as the bit pattern of its two's complement (a number below 2 ^ 64): addition and
-- subtraction wrap, and order is that of the signed value.
use Prim.Native.Nat.{ℕ, ◌+◌, ◌-◌, ◌^◌, ◌%◌, ◌≤◌, ◌<◌}
use mathlib.Core.Path.{◌≡◌}
use mathlib.Core.Bool.{Bool, true, false}
use mathlib.Core.Logic.{inl, inr}
use native.Mathlib.Omega.{arith}
use guidance_for_building_a.Common.Tests.{ltb, ◌==◌, ==_iff, Bool-cases}

abbrev pub u64_mod : ℕ
u64_mod = 2 ^ 64

-- The first pattern of a negative number.
abbrev pub sign_bit : ℕ
sign_bit = 2 ^ 63

abbrev pub IsInt64 : ℕ → Type 0
IsInt64 a = a < u64_mod

unfoldable pub add64 : ℕ → ℕ → ℕ
add64 a b = (a + b) % u64_mod

unfoldable pub sub64 : ℕ → ℕ → ℕ
sub64 a b = (a + u64_mod - b) % u64_mod

-- `a >= 0`
unfoldable pub is_nonneg : ℕ → Bool
is_nonneg a = ltb a sign_bit

-- The signed value, moved up by 2 ^ 63: patterns compare as these do.
abbrev pub biased : ℕ → ℕ
biased a = (a + sign_bit) % u64_mod

-- `a < b`
unfoldable pub lt64 : ℕ → ℕ → Bool
lt64 a b = ltb (biased a) (biased b)

pub add64-IsInt64 : (a b : ℕ) → IsInt64 (add64 a b)
unfolding add64
add64-IsInt64 a b = omega arith

pub sub64-IsInt64 : (a b : ℕ) → IsInt64 (sub64 a b)
unfolding sub64
sub64-IsInt64 a b = omega arith

pub add64-sub64 : (a b : ℕ) → IsInt64 a → IsInt64 b → add64 (sub64 a b) b ≡ a
unfolding add64 sub64
add64-sub64 a b ha hb = omega arith

-- Between numbers that are not negative a subtraction stays at or above zero exactly when it
-- does not borrow.
pub is_nonneg-sub64 : (a b : ℕ) → a < sign_bit → b < sign_bit → is_nonneg (sub64 a b) ≡ true → b ≤ a
unfolding sub64 is_nonneg
is_nonneg-sub64 a b ha hb h = ground arith

pub lt64_above : (a b c : ℕ) → lt64 a b ≡ true → lt64 a c ≡ false → lt64 b c ≡ false
unfolding lt64
lt64_above a b c h h' = ground arith

pub lt64_ne : (a b c : ℕ) → lt64 a b ≡ true → lt64 a c ≡ false → (c == b) ≡ false
lt64_ne a b c h h' = elim (Bool-cases (c == b)) [
  | inl e ↦ let h'' : lt64 a c ≡ true = rw ((==_iff c b).0 e) h in cc (h', h'')
  | inr e ↦ e
]

pub lt64_self : (a : ℕ) → lt64 a a ≡ false
unfolding lt64
lt64_self a = ground arith
