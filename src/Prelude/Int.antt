-- ===== src/Prelude/Int.antt =====
-- Signed integers over the native numbers, and the wrap-around of `int64` and `int`.
use Prim.Native.Nat.{ℕ, suc, ◌+◌, ◌-◌, ◌%◌, ◌^◌, ◌≤◌}
use mathlib.Core.Path.{◌≡◌}
use mathlib.Core.Bool.{Bool}
use native.Mathlib.Omega.{arith}
use localsend_nas.Prelude.Tests.{leb, ltb, ◌==◌, if◌then◌else◌}

-- `negsuc n` is -(n + 1).
pub data ℤ : Type 0 where
  pos : ℕ → ℤ
  negsuc : ℕ → ℤ

abbrev pub pos_part : ℤ → ℕ
pos_part (pos n) = n
pos_part (negsuc _) = 0

abbrev pub neg_part : ℤ → ℕ
neg_part (pos _) = 0
neg_part (negsuc n) = suc n

abbrev pub sub_ℕ : ℕ → ℕ → ℤ
sub_ℕ a b = if leb b a then pos (a - b) else negsuc (b - a - 1)

infix 50 ◌≤ℤ◌
abbrev pub ◌≤ℤ◌ : ℤ → ℤ → Type 0
a ≤ℤ b = pos_part a + neg_part b ≤ pos_part b + neg_part a

abbrev pub ltb_ℤ : ℤ → ℤ → Bool
ltb_ℤ a b = ltb (pos_part a + neg_part b) (pos_part b + neg_part a)

abbrev pub eqb_ℤ : ℤ → ℤ → Bool
eqb_ℤ a b = pos_part a + neg_part b == pos_part b + neg_part a

abbrev pub two_63 : ℕ
two_63 = 2 ^ 63

abbrev pub two_64 : ℕ
two_64 = 2 ^ 64

-- The int64 with the bit pattern `n`, for n < 2 ^ 64.
abbrev pub of_bits : ℕ → ℤ
of_bits n = if ltb n two_63 then pos n else negsuc (two_64 - n - 1)

-- The bit pattern of a value: its residue modulo 2 ^ 64.
abbrev pub to_bits : ℤ → ℕ
to_bits (pos n) = n % two_64
to_bits (negsuc n) = two_64 - 1 - n % two_64

-- int64 addition, which wraps around.
infixl 65 ◌+₆₄◌
unfoldable pub ◌+₆₄◌ : ℤ → ℤ → ℤ
a +₆₄ b = of_bits ((to_bits a + to_bits b) % two_64)

abbrev pub min_int64 : ℤ
min_int64 = negsuc (2 ^ 63 - 1)

abbrev pub max_int64 : ℤ
max_int64 = pos (2 ^ 63 - 1)

pub record IsInt64 (a : ℤ) : Type 0 where
  pub above : min_int64 ≤ℤ a
  pub below : a ≤ℤ max_int64

pub +₆₄-IsInt64 : (a b : ℤ) → IsInt64 (a +₆₄ b)
unfolding ◌+₆₄◌
+₆₄-IsInt64 a b = ground arith

-- A sum of naturals that fits is exact.
pub +₆₄_exact : (m n : ℕ) → m + n ≤ 2 ^ 63 - 1 → pos m +₆₄ pos n ≡ pos (m + n)
unfolding ◌+₆₄◌
+₆₄_exact m n h = ground arith
