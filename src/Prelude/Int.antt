-- ===== src/Prelude/Int.antt =====
-- Signed machine integers over the native numbers.
use Prim.Native.Nat.{ℕ, ◌+◌, ◌-◌, ◌%◌, ◌<◌}
use mathlib.Core.Path.{◌≡◌}
use mathlib.Core.Bool.{Bool, false}
use native.Mathlib.Omega.{arith}
use package.grindr_rs.Prelude.Tests.{ltb, leb, ◌==◌, if◌then◌else◌}

-- `negsuc n` is -(n + 1).
pub data ℤ : Type 0 where
  pos : ℕ → ℤ
  negsuc : ℕ → ℤ

-- a - b, as an integer.
abbrev pub sub_ℕ : ℕ → ℕ → ℤ
sub_ℕ a b = if leb b a then pos (a - b) else negsuc (b - a - 1)

abbrev pub pos_part : ℤ → ℕ
pos_part (pos n) = n
pos_part (negsuc n) = 0

abbrev pub neg_part : ℤ → ℕ
neg_part (pos n) = 0
neg_part (negsuc n) = n + 1

infixl 65 ◌+ℤ◌ ◌-ℤ◌
unfoldable pub ◌+ℤ◌ : ℤ → ℤ → ℤ
a +ℤ b = sub_ℕ (pos_part a + pos_part b) (neg_part a + neg_part b)

unfoldable pub ◌-ℤ◌ : ℤ → ℤ → ℤ
a -ℤ b = sub_ℕ (pos_part a + neg_part b) (neg_part a + pos_part b)

-- The 32-bit pattern of an integer, and the `i32` that a pattern stands for: the cast `as i32`.
abbrev pub low_32 : ℤ → ℕ
low_32 (pos n) = n % 4294967296
low_32 (negsuc n) = 4294967295 - n % 4294967296

unfoldable pub as_i32 : ℤ → ℤ
as_i32 z = if ltb (low_32 z) 2147483648 then pos (low_32 z) else negsuc (4294967295 - low_32 z)

unfoldable pub is_code : ℤ → ℕ → Bool
is_code (pos n) k = n == k
is_code (negsuc n) k = false

-- A value that fits 32 bits is kept by the cast.
pub as_i32-pos : (n : ℕ) → n < 2147483648 → as_i32 (pos n) ≡ pos n
unfolding as_i32
as_i32-pos n h = ground arith
