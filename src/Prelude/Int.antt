-- ===== src/Prelude/Int.antt =====
-- Signed machine integers: an integer is `pos n` or, for -(n + 1), `negsuc n`. The `int` of Go has
-- 64 bits; the wrap-around of `int32` is written out.
use Prim.Native.Nat.{ℕ, suc, ◌+◌, ◌-◌, ◌%◌, ◌^◌, ◌≤◌, ◌<◌}
use mathlib.Core.Path.{◌≡◌, refl}
use mathlib.Core.Bool.{Bool}
use native.Mathlib.Omega.{arith}
use skawld_maintenance.Prelude.Tests.{ltb, leb, if◌then◌else◌}

pub data ℤ : Type 0 where
  pos : ℕ → ℤ
  negsuc : ℕ → ℤ

abbrev pub pos_part : ℤ → ℕ
pos_part (pos n) = n
pos_part (negsuc n) = 0

abbrev pub neg_part : ℤ → ℕ
neg_part (pos n) = 0
neg_part (negsuc n) = suc n

abbrev pub sub_ℕ : ℕ → ℕ → ℤ
sub_ℕ a b = if leb b a then pos (a - b) else negsuc (b - a - 1)

infixl 65 ◌+ℤ◌
unfoldable pub ◌+ℤ◌ : ℤ → ℤ → ℤ
a +ℤ b = sub_ℕ (pos_part a + pos_part b) (neg_part a + neg_part b)

-- a < b
abbrev pub ltb_ℤ : ℤ → ℤ → Bool
ltb_ℤ a b = ltb (pos_part a + neg_part b) (pos_part b + neg_part a)

-- 0 < a
abbrev pub is_pos : ℤ → Bool
is_pos a = ltb 0 (pos_part a)

-- The conversion `int32(a)`: the low 32 bits, read as two's complement.
abbrev pub bits32 : ℤ → ℕ
bits32 (pos n) = n % 2 ^ 32
bits32 (negsuc n) = 2 ^ 32 - 1 - n % 2 ^ 32

unfoldable pub int32 : ℤ → ℤ
int32 a = if ltb (bits32 a) (2 ^ 31) then pos (bits32 a) else negsuc (2 ^ 32 - 1 - bits32 a)

-- `a + b` of two values of type `int32`
unfoldable pub add32 : ℤ → ℤ → ℤ
unfolding int32 ◌+ℤ◌
add32 a b = int32 (a +ℤ b)

-- The values of type `int32`.
abbrev pub IsInt32 : ℤ → Type 0
IsInt32 a = (pos_part a < 2 ^ 31) × (neg_part a ≤ 2 ^ 31)

pub int32-IsInt32 : (a : ℤ) → IsInt32 (int32 a)
unfolding int32
int32-IsInt32 a = ground arith

-- Two positive values add up exactly below 2^31, and to a negative value from there on.
pub add32_exact : (m n : ℕ) → m + n < 2 ^ 31 → add32 (pos m) (pos n) ≡ pos (m + n)
unfolding add32
add32_exact m n h = ground arith

pub add32_wraps :
    (m n : ℕ) → m < 2 ^ 31 → n < 2 ^ 31 → 2 ^ 31 ≤ m + n → pos_part (add32 (pos m) (pos n)) ≡ 0
unfolding add32
add32_wraps m n hm hn h = ground arith

truncates : int32 (pos 4294967306) ≡ pos 10
unfolding int32
truncates = refl
