-- ===== src/HashTable/Cycle.antt =====
-- The sequence i, 5i + 1, 5(5i + 1) + 1, ... modulo a power of two, which a probe of kernel/hash.c
-- follows once `perturb` is zero.
use nebulea_os.Base.{
  ℕ, zero, suc, ◌+◌, ◌-◌, ◌*◌, ◌/◌, ◌%◌, ◌^◌, ◌<◌, ◌≡◌, refl, sym, ap, ◌∙◌, arith, ◌==◌, Bool-cases,
  inl, inr, ltb, if◌then◌else◌, ◌≢◌,
}
use nebulea_os.Base.Bits.{pow_pos}
use native.Mathlib.Nat.{
  two-pow-succ, zero-add, suc-add, add-mod_right, mod-add-mod, mod-lt, mod-eq_of_lt, div-add-mod,
  add-mul-mod_self_left,
}

-- `n` steps from `x` on.
pub steps : ℕ → ℕ → ℕ
steps zero x = x
steps (suc n) x = steps n (5 * x + 1)

pub steps-add : (m n x : ℕ) → steps (m + n) x ≡ steps n (steps m x)
unfolding steps
steps-add zero n x = rw zero-add
steps-add (suc m) n x = rw suc-add (steps-add m n (5 * x + 1))

pub steps-suc : (n x : ℕ) → steps (suc n) x ≡ 5 * steps n x + 1
unfolding steps
steps-suc zero x = refl
steps-suc (suc n) x = steps-suc n (5 * x + 1)

pub steps-zero : (x : ℕ) → steps 0 x ≡ x
unfolding steps
steps-zero x = refl

-- 2 ^ k steps are the map x ↦ (1 + 4 a 2 ^ k) x + 2 ^ k (2 b + 1).
pub record Turn (k : ℕ) : Type 0 where
  pub a : ℕ
  pub b : ℕ
  pub turn : (x : ℕ) → steps (2 ^ k) x ≡ (1 + 4 * (a * 2 ^ k)) * x + 2 ^ k * (2 * b + 1)

twice :
    (a b p x : ℕ)
    → (1 + 4 * (a * p)) * ((1 + 4 * (a * p)) * x + p * (2 * b + 1)) + p * (2 * b + 1)
      ≡ (1 + 4 * ((a + 2 * (a * a * p)) * (p + p))) * x
        + (p + p) * (2 * (b + a * p * (2 * b + 1)) + 1)
twice a b p x = grind arith

Turn-step : (k : ℕ) → Turn k → Turn (suc k)
unfolding steps
Turn-step k t =
    let p : ℕ = 2 ^ k in
    record {
      a = t.a + 2 * (t.a * t.a * p);
      b = t.b + t.a * p * (2 * t.b + 1);
      turn = λ x.
          rw (two-pow-succ k)
            (steps-add p p x ∙ t.turn (steps p x) ∙ rw (t.turn x) (twice t.a t.b p x));
    }

all_turns : (k : ℕ) → Turn k
unfolding steps
all_turns zero = record { a = 1; b = 0; turn = λ x. omega arith }
all_turns (suc k) = Turn-step k (all_turns k)

far : (a b p y : ℕ) → ((1 + 4 * (a * p)) * y + p * (2 * b + 1)) % (p + p) ≡ (y + p) % (p + p)
far a b p y =
    let whole : (1 + 4 * (a * p)) * y + p * (2 * b + 1) ≡ y + p + (p + p) * (2 * (a * y) + b) =
      grind arith in
    ap (λ z. z % (p + p)) whole ∙ add-mul-mod_self_left (y + p) (p + p) (2 * (a * y) + b)

mod_twice : (t p : ℕ) → t < p + p → t % p ≡ (if ltb t p then t else t - p)
mod_twice t p h = elim (Bool-cases (ltb t p)) [
  | inl low ↦ rw low (mod-eq_of_lt (ground arith))
  | inr high ↦
      let back : t - p + p ≡ t = ground arith in
      rw high (ap (λ z. z % p) (sym back) ∙ add-mod_right (t - p) p ∙ mod-eq_of_lt (ground arith))
]

mod_half : (y p : ℕ) → y % (p + p) % p ≡ y % p
mod_half y p =
    let whole : y ≡ y % (p + p) + p * (2 * (y / (p + p))) = grind (arith, div-add-mod y (p + p)) in
    sym (ap (λ z. z % p) whole ∙ add-mul-mod_self_left (y % (p + p)) p (2 * (y / (p + p))))

-- Two numbers with the same rest modulo `p` are half a turn apart, or have the same modulo `p + p`.
other_half : (y t p : ℕ) → t < p + p → y % p ≡ t % p → y % (p + p) ≢ t → (y + p) % (p + p) ≡ t
other_half y t p ht same ne =
    let v : ℕ = y % (p + p) in
    let hv : v < p + p = mod-lt y (omega arith) in
    let rest : (if ltb v p then v else v - p) ≡ (if ltb t p then t else t - p) =
      sym (mod_twice v p hv) ∙ mod_half y p ∙ same ∙ mod_twice t p ht in
    sym (mod-add-mod y (p + p) p) ∙ elim (Bool-cases (ltb v p)) [
      | inl low ↦ mod-eq_of_lt (ground arith) ∙ ground arith
      | inr high ↦
          let back : v + p ≡ t + (p + p) = ground arith in
          ap (λ z. z % (p + p)) back ∙ add-mod_right t (p + p) ∙ mod-eq_of_lt ht
    ]

-- Within 2 ^ k steps every rest modulo 2 ^ k is met.
pub steps_reach : (k x t : ℕ) → t < 2 ^ k → (n : ℕ) × (n < 2 ^ k) × (steps n x % 2 ^ k ≡ t)
unfolding steps
steps_reach zero x t h = (0, omega arith, omega arith)
steps_reach (suc k) x t h =
    let p : ℕ = 2 ^ k in
    let pos : 0 < p = pow_pos k in
    let double : 2 ^ suc k ≡ p + p = two-pow-succ k in
    let ht : t < p + p = omega (arith, double) in
    let (n, small, met) = steps_reach k x (t % p) (mod-lt t pos) in
    rw double (elim (Bool-cases (steps n x % (p + p) == t)) [
      | inl here ↦ (n, omega arith, ground arith)
      | inr there ↦
          let turn = all_turns k in
          (
            n + p,
            omega arith,
            ap (λ z. z % (p + p)) (steps-add n p x ∙ turn.turn (steps n x))
                ∙ far turn.a turn.b p (steps n x)
                ∙ other_half (steps n x) t p ht met (ground arith),
          )
    ])
