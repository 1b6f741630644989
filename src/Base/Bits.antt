-- ===== src/Base/Bits.antt =====
-- The lowest binary digits of a number.
use Prim.Native.Nat.{
  ℕ, zero, suc, ◌+◌, ◌-◌, ◌*◌, ◌/◌, ◌%◌, ◌^◌, ◌≤◌, ◌<◌, min, differ, bit_and, bit_and-bitwise,
  bit_xor, bit_xor-bitwise, bit_or, bit_or-bitwise, max, digits,
}
use mathlib.Core.Path.{◌≡◌, refl, sym, ap, ◌∙◌}
use native.Mathlib.Omega.{arith}
use native.Mathlib.Nat.{
  two-pow-succ, mod-lt, zero-mod, add-suc, add-zero, mul-one, mod-eq_of_lt, div-add-mod,
  add-mul-mod_self_left,
}

split_mod : (x m : ℕ) → 0 < m → (x / 2 % m) * 2 + x % 2 ≡ x % (m + m)
split_mod x m h =
    let q : ℕ = x / 2 in
    let small : q % m * 2 + x % 2 < m + m = omega (arith, mod-lt q h) in
    let whole : x ≡ q % m * 2 + x % 2 + (m + m) * (q / m) = grind (arith, div-add-mod q m) in
    sym (mod-eq_of_lt small)
    ∙ sym (add-mul-mod_self_left (q % m * 2 + x % 2) (m + m) (q / m))
    ∙ ap (λ y. y % (m + m)) (sym whole)

pub pow_pos : (k : ℕ) → 0 < 2 ^ k
pow_pos zero = omega arith
pow_pos (suc k) = omega (arith, two-pow-succ k, pow_pos k)

digits_mask : (n a k : ℕ) → a ≤ n → digits (λ b. 0) min n a (2 ^ k - 1) ≡ a % 2 ^ k
digits_mask zero zero k h = sym (zero-mod (2 ^ k))
digits_mask zero (suc a) k h = absurd (omega arith)
digits_mask (suc n) zero k h = sym (zero-mod (2 ^ k))
digits_mask (suc n) (suc a) zero h = omega (arith, digits_mask n (suc a / 2) 0 (omega arith))
digits_mask (suc n) (suc a) (suc k) h =
    let half : (2 ^ suc k - 1) / 2 ≡ 2 ^ k - 1 = omega (arith, two-pow-succ k, pow_pos k) in
    let odd : (2 ^ suc k - 1) % 2 ≡ 1 = omega (arith, two-pow-succ k, pow_pos k) in
    rw (half, odd, two-pow-succ k)
      (omega (
        arith,
        digits_mask n (suc a / 2) k (omega arith),
        split_mod (suc a) (2 ^ k) (pow_pos k),
        two-pow-succ k,
      ))

-- A mask of `k` ones.
pub bit_and_mask : (a k : ℕ) → bit_and a (2 ^ k - 1) ≡ a % 2 ^ k
bit_and_mask a k = bit_and-bitwise a (2 ^ k - 1) ∙ digits_mask a a k (omega arith)

pub pow_split : (k d : ℕ) → 2 ^ (k + d) ≡ 2 ^ k * 2 ^ d
pow_split k zero = rw (add-zero, mul-one) refl
pow_split k (suc d) =
    rw (add-suc, two-pow-succ (k + d), two-pow-succ d) (grind (arith, pow_split k d))

by_factors : (z w p q : ℕ) → w ≡ p * q → z ≡ z % w + p * (q * (z / w))
by_factors z w p q e = grind (arith, div-add-mod z w, ap (λ x. x * (z / w)) e)

-- A word keeps the rest modulo a smaller power of two.
pub low_of_word : (k z : ℕ) → k ≤ 32 → z % 2 ^ 32 % 2 ^ k ≡ z % 2 ^ k
low_of_word k z h =
    let split : k + (32 - k) ≡ 32 = omega arith in
    let word : 2 ^ 32 ≡ 2 ^ k * 2 ^ (32 - k) = ap (λ n. 2 ^ n) (sym split) ∙ pow_split k (32 - k) in
    let whole : z ≡ z % 2 ^ 32 + 2 ^ k * (2 ^ (32 - k) * (z / 2 ^ 32)) =
      by_factors z (2 ^ 32) (2 ^ k) (2 ^ (32 - k)) word in
    sym (
      ap (λ y. y % 2 ^ k) whole
      ∙ add-mul-mod_self_left (z % 2 ^ 32) (2 ^ k) (2 ^ (32 - k) * (z / 2 ^ 32)))

differ_le : (x y : ℕ) → differ x y ≤ x + y
differ_le zero y = omega arith
differ_le (suc x) zero = omega arith
differ_le (suc x) (suc y) = omega (arith, differ_le x y)

differ_bit : (x y : ℕ) → x < 2 → y < 2 → differ x y < 2
differ_bit zero y hx hy = hy
differ_bit (suc x) zero hx hy = hx
differ_bit (suc x) (suc y) hx hy = omega (arith, differ_le x y)

xor_digits_lt : (n a b k : ℕ) → a ≤ n → a < 2 ^ k → b < 2 ^ k → digits (λ x. x) differ n a b < 2 ^ k
xor_digits_lt zero a b k h ha hb = hb
xor_digits_lt (suc n) zero b k h ha hb = hb
xor_digits_lt (suc n) (suc a) b zero h ha hb = absurd (omega arith)
xor_digits_lt (suc n) (suc a) b (suc k) h ha hb =
    let rest =
      xor_digits_lt n (suc a / 2) (b / 2) k (omega arith) (omega (arith, two-pow-succ k))
        (omega (arith, two-pow-succ k)) in
    omega (arith, rest, two-pow-succ k, differ_bit (suc a % 2) (b % 2) (omega arith) (omega arith))

-- The exclusive or of two words is a word.
pub bit_xor-lt : (a b k : ℕ) → a < 2 ^ k → b < 2 ^ k → bit_xor a b < 2 ^ k
bit_xor-lt a b k ha hb = rw (bit_xor-bitwise a b) (xor_digits_lt a a b k (omega arith) ha hb)

or_digits : (n a f k : ℕ) → a ≤ n → f < 2 ^ k → a % 2 ^ k ≡ 0 → digits (λ x. x) max n a f ≡ a + f
or_digits zero zero f k h hf low = omega arith
or_digits zero (suc a) f k h hf low = absurd (omega arith)
or_digits (suc n) zero f k h hf low = omega arith
or_digits (suc n) (suc a) f zero h hf low =
    let rest = or_digits n (suc a / 2) (f / 2) 0 (omega arith) (omega arith) (omega arith) in
    let none' : f % 2 ≡ 0 = omega arith in rw (none', rest) (omega arith)
or_digits (suc n) (suc a) f (suc k) h hf low =
    let halves = split_mod (suc a) (2 ^ k) (pow_pos k) in
    let low' : suc a % (2 ^ k + 2 ^ k) ≡ 0 = rw (two-pow-succ k) at low in
    let rest =
      or_digits n (suc a / 2) (f / 2) k (omega arith) (omega (arith, two-pow-succ k))
        (omega arith) in
    let even : suc a % 2 ≡ 0 = omega arith in rw (even, rest) (omega arith)

-- Flags below the lowest digit of a number are added to it.
pub bit_or_low : (a f k : ℕ) → f < 2 ^ k → a % 2 ^ k ≡ 0 → bit_or a f ≡ a + f
bit_or_low a f k hf low = bit_or-bitwise a f ∙ or_digits a a f k (omega arith) hf low
