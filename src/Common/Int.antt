-- ===== src/Common/Int.antt =====
-- Signed integers over the native numbers, under the library's names, and Go's `int64` wrap-around.
use Prim.Native.Nat.{ℕ, suc, ◌+◌, ◌-◌, ◌*◌, ◌/◌, ◌%◌, ◌^◌, ◌≤◌, ◌<◌}
use mathlib.Core.Path.{◌≡◌}
use mathlib.Core.Bool.{Bool}
use native.Mathlib.Omega.{arith}
use native.Mathlib.Nat.{add-zero}
use live_auction.Common.Tests.{ltb, leb, if◌then◌else◌}

-- `negsuc n` is -(n + 1).
pub data ℤ : Type 0 where
  pos : ℕ → ℤ
  negsuc : ℕ → ℤ

abbrev pub pos_part : ℤ → ℕ
pos_part (pos n) = n
pos_part (negsuc n) = 0

abbrev pub neg_part : ℤ → ℕ
neg_part (pos n) = 0
neg_part (negsuc n) = suc n

-- a - b, as an integer.
abbrev pub sub_ℕ : ℕ → ℕ → ℤ
sub_ℕ a b = if leb b a then pos (a - b) else negsuc (b - a - 1)

abbrev pub ltb_ℤ : ℤ → ℤ → Bool
ltb_ℤ a b = ltb (pos_part a + neg_part b) (pos_part b + neg_part a)

infix 50 ◌≤ℤ◌ ◌<ℤ◌
abbrev pub ◌≤ℤ◌ : ℤ → ℤ → Type 0
a ≤ℤ b = pos_part a + neg_part b ≤ pos_part b + neg_part a

abbrev pub ◌<ℤ◌ : ℤ → ℤ → Type 0
a <ℤ b = pos_part a + neg_part b < pos_part b + neg_part a

-- The integer that a 64-bit pattern stands for, and the pattern of an integer.
unfoldable pub wrap_64 : ℤ → ℤ
wrap_64 a =
    let bits = (pos_part a + (2 ^ 64 - neg_part a % 2 ^ 64)) % 2 ^ 64 in
    if ltb bits (2 ^ 63) then pos bits else negsuc (2 ^ 64 - bits - 1)

-- Go's `a + b` and `a - b` on `int64`.
infixl 65 ◌+ℤ◌ ◌-ℤ◌
infixl 70 ◌*ℤ◌
unfoldable pub ◌+ℤ◌ : ℤ → ℤ → ℤ
unfolding wrap_64
a +ℤ b = wrap_64 (sub_ℕ (pos_part a + pos_part b) (neg_part a + neg_part b))

unfoldable pub ◌-ℤ◌ : ℤ → ℤ → ℤ
unfolding wrap_64
a -ℤ b = wrap_64 (sub_ℕ (pos_part a + neg_part b) (neg_part a + pos_part b))

-- Go's `%` truncates: the remainder has the sign of the dividend. The divisor is not 0.
unfoldable pub rem_ℤ : ℤ → ℤ → ℤ
rem_ℤ a b =
    let m = (pos_part a + neg_part a) % (pos_part b + neg_part b) in
    if ltb_ℤ a (pos 0) then sub_ℕ 0 m else pos m

pub wrap_64_pos : (n : ℕ) → n < 2 ^ 63 → wrap_64 (pos n) ≡ pos n
unfolding wrap_64
wrap_64_pos n h = ground arith

unfoldable pub ◌*ℤ◌ : ℤ → ℤ → ℤ
unfolding wrap_64
a *ℤ b = wrap_64 (
    sub_ℕ (pos_part a * pos_part b + neg_part a * neg_part b)
      (pos_part a * neg_part b + neg_part a * pos_part b))

-- Go's `/` truncates towards 0. The divisor is positive.
unfoldable pub div_ℤ : ℤ → ℕ → ℤ
div_ℤ a b = if ltb_ℤ a (pos 0) then sub_ℕ 0 (neg_part a / b) else pos (pos_part a / b)

-- Sums and differences that stay in the range of `int64` are the exact ones.
pub +ℤ_pos : (a b : ℕ) → a + b < 2 ^ 63 → pos a +ℤ pos b ≡ pos (a + b)
unfolding ◌+ℤ◌
+ℤ_pos a b h = ground arith

pub -ℤ_pos : (a b : ℕ) → b ≤ a → a < 2 ^ 63 → pos a -ℤ pos b ≡ pos (a - b)
unfolding ◌-ℤ◌
-ℤ_pos a b h k = ground arith

pub rem_ℤ_pos : (a b : ℕ) → rem_ℤ (pos a) (pos b) ≡ pos (a % b)
unfolding rem_ℤ
rem_ℤ_pos a b = ground (arith, add-zero (a % b), add-zero a, add-zero b)

pub *ℤ_pos : (a b : ℕ) → a * b < 2 ^ 63 → pos a *ℤ pos b ≡ pos (a * b)
unfolding ◌*ℤ◌
*ℤ_pos a b h = ground arith
