-- ===== src/HashTable/Resizing.antt =====
-- `hash_update` of kernel/hash.c: a table grows or shrinks, and holds the same.
use native.Mathlib.Nat.{two-pow-succ}
use nebulea_os.Base.{
  ℕ, zero, suc, ◌+◌, ◌-◌, ◌*◌, ◌/◌, ◌^◌, ◌≤◌, ◌<◌, ◌≡◌, refl, sym, ap, ◌∙◌, true, false, Option,
  some, arith, ◌==◌, ◌&&◌, inl, inr, Bool-cases, ltb, leb,
}
use nebulea_os.Base.Int.{pos}
use nebulea_os.Base.Bits.{pow_pos, pow_split}
use nebulea_os.HashTable.Table.{
  Text, HashMap, HashSlot, SlotMode, is_active, is_empty_slot, hash_minsize, hash_initialize,
  hash_copy, resize, hash_update,
}
use nebulea_os.HashTable.Counting.{tally}
use nebulea_os.HashTable.Searching.{empty_unused}
use nebulea_os.HashTable.Valid.{same_key, in_use, active_slot, Placed, Counted}
use nebulea_os.HashTable.Holding.{Holds}
use nebulea_os.HashTable.Copying.{shaped, start-Copied, hash_copy-Copied, Copied-Holds}

-- What one map holds, the other holds.
abbrev pub Keeps : Text → HashMap → HashMap → Type 0
Keeps text m m' = (key : ℕ) (o : Option ℕ) → Holds text m key o → Holds text m' key o

-- The table is in order, and less than two thirds of its slots are filled.
pub record Sound (text : Text) (m : HashMap) : Type 0 where
  pub placed : Placed text m
  pub counts : Counted m
  pub load : 3 * m.fill < 2 * (m.mask + 1)

-- How the table `m'` comes from `m`: no more slots are filled, and there are more only as the filled ones ask for.
pub record Sized (text : Text) (m m' : HashMap) : Type 0 where
  pub fill_le : m'.fill ≤ m.fill
  pub mask_le : (b : ℕ) → m.mask ≤ b → 3 * m.fill ≤ b → m'.mask ≤ b
  pub keys : (a b : ℕ) → same_key text m' a b ≡ same_key text m a b

pub active-in_use : (s : HashSlot) → active_slot s ≡ true → in_use s ≡ true
active-in_use s a = elim (Bool-cases (is_empty_slot s.mode)) [
  | inl e ↦ absurd (empty_unused s.mode e a)
  | inr e ↦ rw e refl
]

tally_mono : (t : ℕ → HashSlot) (n : ℕ) → tally active_slot t n ≤ tally in_use t n
tally_mono t zero = omega arith
tally_mono t (suc n) = elim (Bool-cases (active_slot (t n))) [
  | inl a ↦ rw (a, active-in_use (t n) a) (omega (arith, tally_mono t n))
  | inr a ↦ rw a (ground (arith, tally_mono t n))
]

pub count_le_fill : (m : HashMap) → Counted m → m.count ≤ m.fill
count_le_fill m c = omega (arith, c.filled, c.counted, tally_mono m.table (m.mask + 1))

pub slots : (text : Text) (m : HashMap) (p : Placed text m) → m.mask + 1 ≡ 2 ^ p.bits
slots text m p = omega (arith, p.size, pow_pos p.bits)

pub eight_slots : (text : Text) (m : HashMap) → Placed text m → 8 ≤ m.mask + 1
eight_slots text m p =
    let e : 3 + (p.bits - 3) ≡ p.bits = omega (arith, p.at_least) in
    let f : 2 ^ p.bits ≡ 8 * 2 ^ (p.bits - 3) =
      ap (λ n. 2 ^ n) (sym e) ∙ pow_split 3 (p.bits - 3) in
    omega (arith, f, slots text m p, pow_pos (p.bits - 3))

few_bits : (b : ℕ) → 2 ^ b ≤ 2 ^ 29 → b ≤ 31
few_bits b h = elim (Bool-cases (leb b 31)) [
  | inl yes' ↦ ground arith
  | inr no' ↦
      let e : 32 + (b - 32) ≡ b = ground arith in
      let f : 2 ^ b ≡ 2 ^ 32 * 2 ^ (b - 32) = ap (λ n. 2 ^ n) (sym e) ∙ pow_split 32 (b - 32) in
      absurd (omega (arith, f, pow_pos (b - 32)))
]

-- A table of another size holds what the old one held, and has no deleted slots.
resize-Sound :
    (text : Text) (m : HashMap) (size bits : ℕ)
    → Placed text m
    → Counted m
    → size ≡ 2 ^ bits
    → 3 ≤ bits
    → bits ≤ 32
    → 3 * m.count < 2 * size
    → ((b : ℕ) → m.mask ≤ b → 3 * m.fill ≤ b → size ≤ b + 1)
    → (m' : HashMap) × (resize true text size m ≡ some (pos 0, m'))
      × Sound text m'
      × Keeps text m m'
      × Sized text m m'
unfolding resize hash_initialize
resize-Sound text m size bits p c e at_least at_most few asked =
    let k : ℕ = size - 1 in
    let whole : k + 1 ≡ size = omega (arith, e, pow_pos bits) in
    let (c', t', done, d) =
      hash_copy-Copied text m p k (m.mask + 1) 0 0 (λ i. nebulea_os.HashTable.Table.empty_slot)
        (omega arith) (omega (arith, c.counted))
        (start-Copied text m p k bits (ap (λ n. n - 1) e) at_least at_most) in
    (
      shaped m c' c' k t',
      rw (done, resize) refl,
      record { placed = d.placed; counts = d.counts; load = omega (arith, d.so_far, c.counted) },
      λ key o. Copied-Holds text m p k c' t' key o d,
      record {
        fill_le = omega (arith, d.so_far, c.counted, count_le_fill m c);
        mask_le = λ b h g. omega (arith, asked b h g);
        keys = λ a b. refl;
      },
    )

halved :
    (text : Text) (m : HashMap) (p : Placed text m)
    → 8 < m.mask + 1
    → (4 ≤ p.bits) × ((m.mask + 1) / 2 ≡ 2 ^ (p.bits - 1))
halved text m p h =
    let e : suc (p.bits - 1) ≡ p.bits = omega (arith, p.at_least) in
    let f : 2 ^ p.bits ≡ 2 ^ (p.bits - 1) + 2 ^ (p.bits - 1) =
      ap (λ n. 2 ^ n) (sym e) ∙ two-pow-succ (p.bits - 1) in
    (
      elim (Bool-cases (p.bits == 3)) [
        | inl three ↦
            let g : p.bits ≡ 3 = ground arith in
            let g' : 2 ^ p.bits ≡ 8 = ap (λ n. 2 ^ n) g in
            absurd (omega (arith, g', slots text m p))
        | inr other ↦ ground (arith, p.at_least)
      ],
      omega (arith, f, slots text m p),
    )

-- Where the slots are in their places and counted right, at most one more than two thirds of them
-- are filled and there are at most 2 ^ 29, hash_update with memory at hand ends, returns 0 and
-- leaves a table in order that holds all that the old one held; no more slots are filled than
-- before, and there are more slots only up to three times the filled ones.
pub hash_update-Sound :
    (text : Text) (m : HashMap)
    → Placed text m
    → Counted m
    → 3 * m.fill < 2 * (m.mask + 1) + 3
    → m.mask < 2 ^ 29
    → (m' : HashMap) × (hash_update true text m ≡ some (pos 0, m'))
      × Sound text m'
      × Keeps text m m'
      × Sized text m m'
unfolding hash_update
hash_update-Sound text m p c load small =
    let eight = eight_slots text m p in
    let few = count_le_fill m c in
    let b = few_bits p.bits (omega (arith, slots text m p)) in
    elim (Bool-cases (leb (2 * (m.mask + 1)) (3 * m.fill))) [
      | inl full ↦
          let fits : ltb (2 ^ 31 - 1) (2 * (m.mask + 1)) ≡ false = ground arith in
          rw (full, fits, hash_update)
            (resize-Sound text m (2 * (m.mask + 1)) (suc p.bits) p c
              (rw (two-pow-succ p.bits) (omega (arith, slots text m p))) (omega (arith, p.at_least))
              (omega arith) (omega arith) (λ b h g. ground arith))
      | inr loose ↦
          elim (Bool-cases (ltb hash_minsize (m.mask + 1) && leb (4 * m.count) (m.mask + 1))) [
            | inl sparse ↦
                let large : 8 < m.mask + 1 = ground arith in
                let (four, half) = halved text m p large in
                rw (loose, sparse, hash_update)
                  (resize-Sound text m ((m.mask + 1) / 2) (p.bits - 1) p c half (omega arith)
                    (omega arith) (ground arith) (λ b h g. omega arith))
            | inr full ↦
                rw (loose, full, hash_update)
                  (
                    m,
                    refl,
                    record { placed = p; counts = c; load = ground arith },
                    λ key o held. held,
                    record { fill_le = omega arith; mask_le = λ b h g. h; keys = λ a b. refl },
                  )
          ]
    ]
