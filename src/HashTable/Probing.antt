-- ===== src/HashTable/Probing.antt =====
-- The order in which `hash_lookup` of kernel/hash.c visits the slots.
use Prim.Native.Nat.{bit_and}
use nebulea_os.Base.{
  ℕ, zero, suc, ◌+◌, ◌-◌, ◌*◌, ◌/◌, ◌%◌, ◌^◌, ◌≤◌, ◌<◌, ◌≡◌, refl, sym, ap, ◌∙◌, arith,
}
use nebulea_os.Base.Bits.{bit_and_mask, low_of_word}
use nebulea_os.HashTable.Cycle.{steps, steps-suc, steps-zero, steps_reach}
use native.Mathlib.Nat.{mod-mod}

-- `perturb` and `index` after `j` rounds, and the slot that is looked at then.
unfoldable pub perturb_at : (hash j : ℕ) → ℕ
perturb_at hash zero = hash
perturb_at hash (suc j) = perturb_at hash j / 32

unfoldable pub index_at : (mask hash j : ℕ) → ℕ
index_at mask hash zero = bit_and hash mask
index_at mask hash (suc j) = (5 * index_at mask hash j + perturb_at hash j + 1) % 2 ^ 32

abbrev pub position : (mask hash j : ℕ) → ℕ
position mask hash j = bit_and (index_at mask hash j) mask

perturb_gone : (hash n : ℕ) → hash < 2 ^ 32 → perturb_at hash (7 + n) ≡ 0
unfolding perturb_at
perturb_gone hash zero h = omega arith
perturb_gone hash (suc n) h =
    let later : 7 + suc n ≡ suc (7 + n) = omega arith in
    rw later (omega (arith, perturb_gone hash n h))

congruent : (i s : ℕ) → i % 2 ^ 32 ≡ s % 2 ^ 32 → (5 * i + 0 + 1) % 2 ^ 32 ≡ (5 * s + 1) % 2 ^ 32
congruent i s h = omega arith

-- Without `perturb`, the index follows the cycle.
index_cycle :
    (mask hash n : ℕ)
    → hash < 2 ^ 32
    → index_at mask hash (7 + n) % 2 ^ 32 ≡ steps n (index_at mask hash 7) % 2 ^ 32
unfolding index_at
index_cycle mask hash zero h = rw steps-zero refl
index_cycle mask hash (suc n) h =
    let i : ℕ = index_at mask hash (7 + n) in
    let s : ℕ = steps n (index_at mask hash 7) in
    let same : i % 2 ^ 32 ≡ s % 2 ^ 32 = index_cycle mask hash n h in
    let gone : perturb_at hash (7 + n) ≡ 0 = perturb_gone hash n h in
    let later : 7 + suc n ≡ suc (7 + n) = omega arith in
    rw (later, steps-suc, gone) (mod-mod (5 * i + 0 + 1) (2 ^ 32) ∙ congruent i s same)

-- In a table of 2 ^ k slots, for k up to 32, and for every hash of 32 bits, each slot is visited
-- within 2 ^ k + 7 rounds.
pub position_reach :
    (k hash t : ℕ)
    → k ≤ 32
    → hash < 2 ^ 32
    → t < 2 ^ k
    → (j : ℕ) × (j < 2 ^ k + 7) × (position (2 ^ k - 1) hash j ≡ t)
position_reach k hash t hk hh ht =
    let mask : ℕ = 2 ^ k - 1 in
    let (n, small, met) = steps_reach k (index_at mask hash 7) t ht in
    (
      7 + n,
      omega arith,
      bit_and_mask (index_at mask hash (7 + n)) k
          ∙ sym (low_of_word k (index_at mask hash (7 + n)) hk)
          ∙ ap (λ z. z % 2 ^ k) (index_cycle mask hash n hh)
          ∙ low_of_word k (steps n (index_at mask hash 7)) hk
          ∙ met,
    )
