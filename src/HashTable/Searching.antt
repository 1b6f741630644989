-- ===== src/HashTable/Searching.antt =====
-- `hash_lookup` of kernel/hash.c on a table that has an empty slot.
use nebulea_os.Base.{
  ℕ, zero, suc, ◌+◌, ◌<◌, ◌≡◌, refl, Bool, true, false, Option, none, some, arith, ◌==◌, ◌⊎◌, inl,
  inr, Bool-cases, ltb,
}
use nebulea_os.HashTable.Table.{HashSlot, SlotMode, is_active, is_empty_slot, or_free, lookup_from}
use nebulea_os.HashTable.Probing.{position, index_at, perturb_at}

pub SlotMode-cases :
    (m : SlotMode)
    → (m ≡ SlotMode.sl_empty) ⊎ ((m ≡ SlotMode.sl_active) ⊎ (m ≡ SlotMode.sl_deleted))
SlotMode-cases SlotMode.sl_empty = inl refl
SlotMode-cases SlotMode.sl_active = inr (inl refl)
SlotMode-cases SlotMode.sl_deleted = inr (inr refl)

pub empty_unused : (m : SlotMode) → is_empty_slot m ≡ true → is_active m ≡ true → ⊥
empty_unused SlotMode.sl_empty e a = cc
empty_unused SlotMode.sl_active e a = cc
empty_unused SlotMode.sl_deleted e a = cc

pub both_ways : (b : Bool) → b ≡ true → b ≡ false → ⊥
both_ways b e f = cc

-- A slot is met by a search for a hash, and no slot before it is empty.
pub record Reached (table : ℕ → HashSlot) (mask hash i : ℕ) : Type 0 where
  pub round : ℕ
  pub there : position mask hash round ≡ i
  pub before : (l : ℕ) → l < round → is_empty_slot (table (position mask hash l)).mode ≡ false

-- What a search for a hash and a test finds: the slot that passes the test, or one that is not in
-- use while no active slot that the search could reach passes.
pub record Found (hit : HashSlot → Bool) (table : ℕ → HashSlot) (mask hash r : ℕ) : Type 0 where
  pub reached : Reached table mask hash r
  pub outcome :
      ((is_active (table r).mode ≡ true) × (hit (table r) ≡ true))
      ⊎ ((is_active (table r).mode ≡ false)
          × ((i : ℕ)
              → Reached table mask hash i
              → is_active (table i).mode ≡ true
              → hit (table i) ≡ false))

-- The slots before a round: none is empty, and none is active and passes the test.
abbrev Passed : (HashSlot → Bool) → (ℕ → HashSlot) → (mask hash j : ℕ) → Type 0
Passed hit table mask hash j =
    (l : ℕ)
    → l < j
    → (is_empty_slot (table (position mask hash l)).mode ≡ false)
      × (is_active (table (position mask hash l)).mode ≡ true
          → hit (table (position mask hash l)) ≡ false)

-- The slot kept for later is one that the search met, and is not in use.
abbrev Kept : (ℕ → HashSlot) → (mask hash j : ℕ) → Option ℕ → Type 0
Kept table mask hash j none = Unit {0}
Kept table mask hash j (some f) =
    (l : ℕ) × (l < j) × (position mask hash l ≡ f) × (is_active (table f).mode ≡ false)

module _ (hit : HashSlot → Bool) (table : ℕ → HashSlot) (mask hash : ℕ) where
  none_hits :
      (j : ℕ)
      → Passed hit table mask hash j
      → is_empty_slot (table (position mask hash j)).mode ≡ true
      → (i : ℕ) → Reached table mask hash i
      → is_active (table i).mode ≡ true
      → hit (table i) ≡ false
  none_hits j passed empty i r active = elim (Bool-cases (ltb r.round j)) [
    | inl early ↦ rw (← r.there) ((passed r.round (ground arith)).1 (rw r.there active))
    | inr late ↦ elim (Bool-cases (r.round == j)) [
      | inl now ↦
          let same : r.round ≡ j = ground arith in
          let there : position mask hash j ≡ i = rw same at r.there in
          absurd (empty_unused (table i).mode (rw there at empty) active)
      | inr beyond ↦ absurd (
          both_ways (is_empty_slot (table (position mask hash j)).mode) empty
            (r.before j (ground arith)))
    ]
  ]

  at_empty :
      (j : ℕ) (free : Option ℕ)
      → Passed hit table mask hash j
      → Kept table mask hash j free
      → (table (position mask hash j)).mode ≡ SlotMode.sl_empty
      → Found hit table mask hash (or_free free (position mask hash j))
  at_empty j none passed kept e = record {
    reached = record { round = j; there = refl; before = λ l h. (passed l h).0 };
    outcome = inr (rw e refl, none_hits j passed (rw e refl));
  }
  at_empty j (some f) passed (l, lt, met, unused) e = record {
    reached = record { round = l; there = met; before = λ l' h. (passed l' (omega arith)).0 };
    outcome = inr (unused, none_hits j passed (rw e refl));
  }

  Passed-suc :
      (j : ℕ)
      → Passed hit table mask hash j
      → is_empty_slot (table (position mask hash j)).mode ≡ false
      → (is_active (table (position mask hash j)).mode ≡ true
          → hit (table (position mask hash j)) ≡ false)
      → Passed hit table mask hash (suc j)
  Passed-suc j passed full miss l h = elim (Bool-cases (l == j)) [
    | inl now ↦ let same : l ≡ j = ground arith in rw same (full, miss)
    | inr earlier ↦ passed l (ground arith)
  ]

  Kept-suc :
      (j : ℕ) (free : Option ℕ) → Kept table mask hash j free → Kept table mask hash (suc j) free
  Kept-suc j none kept = tt
  Kept-suc j (some f) (l, lt, met, unused) = (l, omega arith, met, unused)

  Kept-deleted :
      (j : ℕ) (free : Option ℕ)
      → Kept table mask hash j free
      → (table (position mask hash j)).mode ≡ SlotMode.sl_deleted
      → Kept table mask hash (suc j) (some (or_free free (position mask hash j)))
  Kept-deleted j none kept e = (j, omega arith, refl, rw e refl)
  Kept-deleted j (some f) (l, lt, met, unused) e = (l, omega arith, met, unused)

  later_empty :
      (j e n : ℕ)
      → e < suc n
      → is_empty_slot (table (position mask hash (j + e))).mode ≡ true
      → is_empty_slot (table (position mask hash j)).mode ≡ false
      → (e' : ℕ) × (e' < n) × (is_empty_slot (table (position mask hash (suc j + e'))).mode ≡ true)
  later_empty j zero n lt empty full = let same : j + 0 ≡ j = omega arith in absurd (cc)
  later_empty j (suc e) n lt empty full =
      let same : j + suc e ≡ suc j + e = omega arith in (e, omega arith, rw same at empty)

  pub lookup_from-Found :
      (n j : ℕ) (free : Option ℕ)
      → Passed hit table mask hash j
      → Kept table mask hash j free
      → ((e : ℕ) × (e < n) × (is_empty_slot (table (position mask hash (j + e))).mode ≡ true))
      → (r : ℕ) × (lookup_from hit table mask n (index_at mask hash j) (perturb_at hash j) free
          ≡ some r)
        × Found hit table mask hash r
  unfolding lookup_from index_at perturb_at
  lookup_from-Found zero j free passed kept (e, lt, empty) = absurd (omega arith)
  lookup_from-Found (suc n) j free passed kept (e, lt, empty) =
      let p : ℕ = position mask hash j in
      elim (SlotMode-cases (table p).mode) [
        | inl free' ↦
            rw (free', lookup_from) (or_free free p, refl, at_empty j free passed kept free')
        | inr (inl active) ↦ elim (Bool-cases (hit (table p))) [
          | inl yes' ↦
              rw (active, yes', lookup_from)
                (
                  p,
                  refl,
                  record {
                    reached = record { round = j; there = refl; before = λ l h. (passed l h).0 };
                    outcome = inl (rw active refl, yes');
                  },
                )
          | inr no' ↦
              rw (active, no', lookup_from)
                (lookup_from-Found n (suc j) free (Passed-suc j passed (rw active refl) (λ _. no'))
                  (Kept-suc j free kept) (later_empty j e n lt empty (rw active refl)))
        ]
        | inr (inr deleted) ↦
            rw (deleted, lookup_from)
              (lookup_from-Found n (suc j) (some (or_free free p))
                (Passed-suc j passed (rw deleted refl)
                  (λ a. absurd (both_ways _ a (rw deleted refl))))
                (Kept-deleted j free kept deleted) (later_empty j e n lt empty (rw deleted refl)))
      ]
