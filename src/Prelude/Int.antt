-- ===== src/Prelude/Int.antt =====
-- Signed integers over the native numbers, for `int64_t` prices and `int32_t` positions.
use Prim.Native.Nat.{ℕ, suc, ◌+◌, ◌-◌, ◌%◌, ◌^◌, ◌≤◌}
use mathlib.Core.Path.{◌≡◌, ap}
use native.Mathlib.Omega.{arith}
use mathlib.Core.Bool.{Bool}
use low_latency_electronic_t.Prelude.Tests.{ltb, leb, ◌==◌, if◌then◌else◌}

-- `negsuc n` is -(n + 1).
pub data ℤ : Type 0 where
  pos : ℕ → ℤ
  negsuc : ℕ → ℤ

abbrev pub pos_part : ℤ → ℕ
pos_part (pos n) = n
pos_part (negsuc n) = 0

abbrev pub neg_part : ℤ → ℕ
neg_part (pos n) = 0
neg_part (negsuc n) = suc n

-- a - b, as an integer.
abbrev pub sub_ℕ : ℕ → ℕ → ℤ
sub_ℕ a b = if leb b a then pos (a - b) else negsuc (b - a - 1)

infixl 65 ◌+ℤ◌ ◌-ℤ◌
abbrev pub ◌+ℤ◌ : ℤ → ℤ → ℤ
a +ℤ b = sub_ℕ (pos_part a + pos_part b) (neg_part a + neg_part b)

abbrev pub ◌-ℤ◌ : ℤ → ℤ → ℤ
a -ℤ b = sub_ℕ (pos_part a + neg_part b) (neg_part a + pos_part b)

-- The absolute value.
abbrev pub nat_abs : ℤ → ℕ
nat_abs a = pos_part a + neg_part a

infix 50 ◌≤ℤ◌ ◌<ℤ◌
abbrev pub ◌≤ℤ◌ : ℤ → ℤ → Type 0
a ≤ℤ b = pos_part a + neg_part b ≤ pos_part b + neg_part a

abbrev pub ◌<ℤ◌ : ℤ → ℤ → Type 0
a <ℤ b = suc (pos_part a + neg_part b) ≤ pos_part b + neg_part a

abbrev pub ltb_ℤ : ℤ → ℤ → Bool
ltb_ℤ a b = ltb (pos_part a + neg_part b) (pos_part b + neg_part a)

abbrev pub beq_ℤ : ℤ → ℤ → Bool
beq_ℤ a b = (pos_part a + neg_part b) == (pos_part b + neg_part a)

-- The conversion to `uint64_t`.
abbrev pub to_u64 : ℤ → ℕ
to_u64 a = (pos_part a + 2 ^ 64 - neg_part a) % 2 ^ 64

-- Integers are equal if their parts have one difference.
pub eq_of_parts : (a x : ℤ) → pos_part a + neg_part x ≡ pos_part x + neg_part a → a ≡ x
eq_of_parts (pos n) (pos m) e = ap pos (omega (arith, e))
eq_of_parts (pos n) (negsuc m) e = absurd (omega (arith, e))
eq_of_parts (negsuc n) (pos m) e = absurd (omega (arith, e))
eq_of_parts (negsuc n) (negsuc m) e = ap negsuc (omega (arith, e))

pub sub_ℕ-parts : (m n : ℕ) → pos_part (sub_ℕ m n) + n ≡ neg_part (sub_ℕ m n) + m
sub_ℕ-parts m n = ground arith
