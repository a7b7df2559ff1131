-- ===== src/Prelude/Int.antt =====
-- Go's `int`, a signed 64-bit integer: the mathematical integers, and the wrap-around of 64 bits.
use Prim.Native.Nat.{ℕ, suc, ◌+◌, ◌-◌, ◌*◌, ◌%◌, ◌^◌, ◌≤◌, ◌<◌}
use mathlib.Core.Path.{◌≡◌, refl}
use mathlib.Core.Bool.{Bool}
use native.Mathlib.Omega.{arith}
use go_syncstorage.Prelude.Tests.{ltb, leb, if◌then◌else◌}

-- `negsuc n` is -(n + 1).
pub data ℤ : Type 0 where
  pos : ℕ → ℤ
  negsuc : ℕ → ℤ

abbrev pub pos_part : ℤ → ℕ
pos_part (pos n) = n
pos_part (negsuc n) = 0

abbrev pub neg_part : ℤ → ℕ
neg_part (pos n) = 0
neg_part (negsuc n) = suc n

-- a - b, as an integer.
abbrev pub sub_ℕ : ℕ → ℕ → ℤ
sub_ℕ a b = if leb b a then pos (a - b) else negsuc (b - a - 1)

infixl 65 ◌+ℤ◌
unfoldable pub ◌+ℤ◌ : ℤ → ℤ → ℤ
a +ℤ b = sub_ℕ (pos_part a + pos_part b) (neg_part a + neg_part b)

infixl 70 ◌*ℤ◌
unfoldable pub ◌*ℤ◌ : ℤ → ℤ → ℤ
a *ℤ b =
    sub_ℕ (pos_part a * pos_part b + neg_part a * neg_part b)
      (pos_part a * neg_part b + neg_part a * pos_part b)

infix 50 ◌≤ℤ◌
abbrev pub ◌≤ℤ◌ : ℤ → ℤ → Type 0
a ≤ℤ b = pos_part a + neg_part b ≤ pos_part b + neg_part a

infix 50 ◌<ℤ◌
abbrev pub ◌<ℤ◌ : ℤ → ℤ → Type 0
a <ℤ b = pos_part a + neg_part b < pos_part b + neg_part a

abbrev pub lt_int : ℤ → ℤ → Bool
lt_int a b = ltb (pos_part a + neg_part b) (pos_part b + neg_part a)

abbrev pub le_int : ℤ → ℤ → Bool
le_int a b = leb (pos_part a + neg_part b) (pos_part b + neg_part a)

-- The integer that a 64-bit pattern stands for.
unfoldable pub of_bits : ℕ → ℤ
of_bits r = if ltb r (2 ^ 63) then pos r else negsuc (2 ^ 64 - r - 1)

-- The value that is left of an integer in 64 bits.
unfoldable pub wrap : ℤ → ℤ
unfolding of_bits
wrap (pos n) = of_bits (n % 2 ^ 64)
wrap (negsuc n) = of_bits (2 ^ 64 - 1 - n % 2 ^ 64)

-- Go's `a + b` and `a * b` on `int`.
unfoldable pub add_int : ℤ → ℤ → ℤ
unfolding wrap ◌+ℤ◌
add_int a b = wrap (a +ℤ b)

unfoldable pub mul_int : ℤ → ℤ → ℤ
unfolding wrap ◌*ℤ◌
mul_int a b = wrap (a *ℤ b)

-- The sum of two numbers below 2 ^ 63 in total does not wrap.
pub add_int-pos : (m n : ℕ) → m + n < 2 ^ 63 → add_int (pos m) (pos n) ≡ pos (m + n)
unfolding add_int
add_int-pos m n h = ground arith

add_int-wraps : add_int (pos (2 ^ 63 - 1)) (pos 1) ≡ negsuc (2 ^ 63 - 1)
unfolding add_int
add_int-wraps = refl

mul_int-wraps : mul_int (pos (2 ^ 62)) (pos 1000) ≡ pos 0
unfolding mul_int
mul_int-wraps = refl

-- Go's `a - b`
unfoldable pub sub_int : ℤ → ℤ → ℤ
unfolding wrap
sub_int a b = wrap (sub_ℕ (pos_part a + neg_part b) (neg_part a + pos_part b))
