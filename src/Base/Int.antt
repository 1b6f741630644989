-- ===== src/Base/Int.antt =====
-- The C `int` as an integer over the native numbers, with its order.
use Prim.Native.Nat.{ℕ, suc, ◌+◌, ◌-◌, ◌%◌, ◌<◌}
use mathlib.Core.Path.{◌≡◌}
use native.Mathlib.Omega.{arith}
use mathlib.Core.Bool.{Bool}
use nebulea_os.Base.Tests.{ltb, leb, if◌then◌else◌}

-- `negsuc n` is -(n + 1).
pub data ℤ : Type 0 where
  pos : ℕ → ℤ
  negsuc : ℕ → ℤ

abbrev pub pos_part : ℤ → ℕ
pos_part (pos n) = n
pos_part (negsuc n) = 0

abbrev pub neg_part : ℤ → ℕ
neg_part (pos n) = 0
neg_part (negsuc n) = suc n

-- a - b, as an integer.
abbrev pub sub_ℕ : ℕ → ℕ → ℤ
sub_ℕ a b = if leb b a then pos (a - b) else negsuc (b - a - 1)

infixl 65 ◌+ℤ◌ ◌-ℤ◌
abbrev pub ◌+ℤ◌ : ℤ → ℤ → ℤ
a +ℤ b = sub_ℕ (pos_part a + pos_part b) (neg_part a + neg_part b)

abbrev pub ◌-ℤ◌ : ℤ → ℤ → ℤ
a -ℤ b = sub_ℕ (pos_part a + neg_part b) (neg_part a + pos_part b)

abbrev pub ltb_ℤ : ℤ → ℤ → Bool
ltb_ℤ a b = ltb (pos_part a + neg_part b) (pos_part b + neg_part a)

abbrev pub leb_ℤ : ℤ → ℤ → Bool
leb_ℤ a b = leb (pos_part a + neg_part b) (pos_part b + neg_part a)

abbrev pub minus_one : ℤ
minus_one = negsuc 0

-- The bits of a `short`, read as a signed number.
abbrev pub of_bits16 : ℕ → ℤ
of_bits16 m = if ltb m 32768 then pos m else sub_ℕ m 65536

-- The conversion of an `int` to `short`: the value modulo 2 ^ 16, between -32768 and 32767.
unfoldable pub to_short : ℤ → ℤ
to_short (pos n) = of_bits16 (n % 65536)
to_short (negsuc n) = of_bits16 ((65536 - (n + 1) % 65536) % 65536)

-- A value that fits is kept.
pub to_short_self : (z : ℤ) → pos_part z < 32768 → neg_part z < 32769 → to_short z ≡ z
unfolding to_short
to_short_self (pos n) h k = ground arith
to_short_self (negsuc n) h k = ground arith
