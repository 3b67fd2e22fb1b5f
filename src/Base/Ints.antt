-- ===== src/Base/Ints.antt =====
-- Machine integers. An unsigned one is its value, a natural number below 2 ^ 64; a signed one is
-- an integer in range, and conversions and overflow wrap modulo 2 ^ 64 as in Go.
use Prim.Native.Nat.{ℕ, suc, ◌+◌, ◌-◌, ◌*◌, ◌%◌}
use plaklet.Base.Tests.{ltb, leb, if◌then◌else◌}

abbrev pub u64_mod : ℕ
u64_mod = 18446744073709551616

abbrev pub i64_half : ℕ
i64_half = 9223372036854775808

abbrev pub u64 : ℕ → ℕ
u64 n = n % u64_mod

-- `negsuc n` is -(n + 1).
pub data ℤ : Type 0 where
  pos : ℕ → ℤ
  negsuc : ℕ → ℤ

abbrev pub neg : ℕ → ℤ
neg n = if ltb 0 n then negsuc (n - 1) else pos 0

-- `uint64(v)` of an int64.
abbrev pub u64_of_i64 : ℤ → ℕ
u64_of_i64 (pos n) = u64 n
u64_of_i64 (negsuc n) = u64_mod - 1 - n % u64_mod

-- `int64(v)` of a uint64: two's complement.
abbrev pub i64_of_u64 : ℕ → ℤ
i64_of_u64 n = let m : ℕ = u64 n in if ltb m i64_half then pos m else negsuc (u64_mod - 1 - m)

unfoldable pub add_i64 : ℤ → ℤ → ℤ
add_i64 a b = i64_of_u64 (u64_of_i64 a + u64_of_i64 b)

unfoldable pub sub_i64 : ℤ → ℤ → ℤ
sub_i64 a b = i64_of_u64 (u64_of_i64 a + (u64_mod - u64_of_i64 b))

unfoldable pub neg_i64 : ℤ → ℤ
neg_i64 a = i64_of_u64 (u64_mod - u64_of_i64 a)

unfoldable pub mul_i64 : ℤ → ℤ → ℤ
mul_i64 a b = i64_of_u64 (u64_of_i64 a * u64_of_i64 b)

-- a - b, as an integer.
abbrev pub sub_ℕ : ℕ → ℕ → ℤ
sub_ℕ a b = if leb b a then pos (a - b) else negsuc (b - a - 1)

abbrev pos_part : ℤ → ℕ
pos_part (pos n) = n
pos_part (negsuc n) = 0

abbrev neg_part : ℤ → ℕ
neg_part (pos n) = 0
neg_part (negsuc n) = suc n

infixl 65 ◌+ℤ◌
unfoldable pub ◌+ℤ◌ : ℤ → ℤ → ℤ
a +ℤ b = sub_ℕ (pos_part a + pos_part b) (neg_part a + neg_part b)
