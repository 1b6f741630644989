-- ===== src/HashTable/Counting.antt =====
-- How many slots of a table of kernel/hash.c pass a test.
use nebulea_os.Base.{
  ℕ, zero, suc, ◌+◌, ◌≤◌, ◌<◌, ◌≡◌, refl, Bool, false, arith, ◌==◌, if◌then◌else◌, update,
  Bool-cases, inl, inr,
}
use nebulea_os.HashTable.Table.{HashSlot}

-- Of the slots below `n`.
abbrev pub tally : (HashSlot → Bool) → (ℕ → HashSlot) → ℕ → ℕ
tally p table zero = 0
tally p table (suc n) = if p (table n) then suc (tally p table n) else tally p table n

-- A write to a slot changes the count by that slot alone.
tally_beyond :
    (p : HashSlot → Bool) (table : ℕ → HashSlot) (i : ℕ) (s : HashSlot) (n : ℕ)
    → n ≤ i
    → tally p (update table i s) n ≡ tally p table n
tally_beyond p table i s zero h = refl
tally_beyond p table i s (suc n) h =
    let other : (i == n) ≡ false = ground arith in
    rw (other, tally_beyond p table i s n (omega arith)) refl

pub tally-update :
    (p : HashSlot → Bool) (table : ℕ → HashSlot) (i : ℕ) (s : HashSlot) (n : ℕ)
    → i < n
    → tally p (update table i s) n + (if p (table i) then 1 else 0)
      ≡ tally p table n + (if p s then 1 else 0)
tally-update p table i s zero h = absurd (omega arith)
tally-update p table i s (suc n) h = elim (Bool-cases (i == n)) [
  | inl last ↦
      let same : i ≡ n = ground arith in
      rw (last, tally_beyond p table i s n (omega arith)) (rw same (ground arith))
  | inr before ↦
      let rest = tally-update p table i s n (ground arith) in rw before (ground (arith, rest))
]

-- Where fewer than all slots pass, one does not.
pub tally_short :
    (p : HashSlot → Bool) (table : ℕ → HashSlot) (n : ℕ)
    → tally p table n < n
    → (i : ℕ) × (i < n) × (p (table i) ≡ false)
tally_short p table zero h = absurd (omega arith)
tally_short p table (suc n) h = elim (Bool-cases (p (table n))) [
  | inl yes' ↦ let (i, lt, out) = tally_short p table n (ground arith) in (i, omega arith, out)
  | inr no' ↦ (n, omega arith, no')
]

pub tally_none : (p : HashSlot → Bool) (s : HashSlot) (n : ℕ) → p s ≡ false → tally p (λ i. s) n ≡ 0
tally_none p s zero h = refl
tally_none p s (suc n) h = rw h (tally_none p s n h)
