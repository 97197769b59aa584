-- ===== src/Prelude/Int.antt =====
-- Signed integers over the native numbers, for Go's int32 and int where the code tests a sign.
use Prim.Native.Nat.{ℕ, suc, ◌-◌, ◌+◌, ◌%◌, ◌^◌}
use mathlib.Core.Bool.{Bool}
use ai_edge.Prelude.Tests.{ltb, leb, if◌then◌else◌}

-- `negsuc n` is -(n + 1).
pub data ℤ : Type 0 where
  pos : ℕ → ℤ
  negsuc : ℕ → ℤ

abbrev pub pos_part : ℤ → ℕ
pos_part (pos n) = n
pos_part (negsuc n) = 0

abbrev pub neg_part : ℤ → ℕ
neg_part (pos n) = 0
neg_part (negsuc n) = suc n

-- a - b, as an integer.
abbrev pub sub_ℕ : ℕ → ℕ → ℤ
sub_ℕ a b = if leb b a then pos (a - b) else negsuc (b - a - 1)

infixl 65 ◌+ℤ◌ ◌-ℤ◌
abbrev pub ◌+ℤ◌ : ℤ → ℤ → ℤ
a +ℤ b = sub_ℕ (pos_part a + pos_part b) (neg_part a + neg_part b)

abbrev pub ◌-ℤ◌ : ℤ → ℤ → ℤ
a -ℤ b = sub_ℕ (pos_part a + neg_part b) (neg_part a + pos_part b)

abbrev pub leb_ℤ : ℤ → ℤ → Bool
leb_ℤ a b = leb (pos_part a + neg_part b) (pos_part b + neg_part a)

abbrev pub ltb_ℤ : ℤ → ℤ → Bool
ltb_ℤ a b = ltb (pos_part a + neg_part b) (pos_part b + neg_part a)

-- The bits of a number below 2 ^ 32, read as an int32.
abbrev pub signed_32 : ℕ → ℤ
signed_32 m = if ltb m (2 ^ 31) then pos m else negsuc (2 ^ 32 - m - 1)

-- Go's int32(x), which keeps the low 32 bits.
abbrev pub int32_of : ℤ → ℤ
int32_of (pos n) = signed_32 (n % 2 ^ 32)
int32_of (negsuc n) = signed_32 (2 ^ 32 - n % 2 ^ 32 - 1)
