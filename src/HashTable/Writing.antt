-- ===== src/HashTable/Writing.antt =====
-- Writes to one slot of a table of kernel/hash.c: a new key, a new value, and a key that is deleted.
use nebulea_os.Base.{
  ℕ, ◌+◌, ◌≤◌, ◌<◌, ◌≡◌, true, false, arith, ◌==◌, inl, inr, Bool-cases, if◌then◌else◌, update,
}
use nebulea_os.HashTable.Table.{Text, HashSlot, HashMap, SlotMode, is_active, is_empty_slot}
use nebulea_os.HashTable.Counting.{tally-update}
use nebulea_os.HashTable.Searching.{Reached, both_ways}
use nebulea_os.HashTable.Valid.{same_key, in_use, active_slot, Placed, Counted, Absent}

-- The map with another table and other counts.
abbrev pub rewritten : HashMap → (fill count : ℕ) → (ℕ → HashSlot) → HashMap
rewritten m f c t = record m { fill = f; count = c; table = t }

pub same_key_symm :
    (text : Text) (m : HashMap)
    → Placed text m
    → (a b : ℕ) → same_key text m a b ≡ true
    → same_key text m b a ≡ true
same_key_symm text m p a b e = ground (arith, p.keying.symm a b)

pub same_key_trans :
    (text : Text) (m : HashMap)
    → Placed text m
    → (a b c : ℕ) → same_key text m a b ≡ true
    → same_key text m b c ≡ true
    → same_key text m a c ≡ true
same_key_trans text m p a b c e f = ground (arith, p.keying.trans a b c)

Reached-grow :
    (t t' : ℕ → HashSlot) (mask hash i : ℕ)
    → ((l : ℕ) → is_empty_slot (t l).mode ≡ false → is_empty_slot (t' l).mode ≡ false)
    → Reached t mask hash i
    → Reached t' mask hash i
Reached-grow t t' mask hash i grow r = record {
  round = r.round;
  there = r.there;
  before = λ l h. grow _ (r.before l h);
}

-- A new key at the slot where the search for it ended.
module _ (text : Text) (m : HashMap) (p : Placed text m) (r : ℕ) (s : HashSlot) (f c : ℕ)
    (key : s.hash ≡ m.hfunc text s.key) (mode : s.mode ≡ SlotMode.sl_active) where
  abbrev inserted : HashMap
  inserted = rewritten m f c (update m.table r s)

  still_full :
      (l : ℕ)
      → is_empty_slot (m.table l).mode ≡ false
      → is_empty_slot (inserted.table l).mode ≡ false
  still_full l e = ground (arith, mode)

  pub insert-Placed :
      r ≤ m.mask
      → Reached m.table m.mask (m.hfunc text s.key) r
      → Absent text m s.key
      → Placed text inserted
  insert-Placed inside reached absent = record {
    keying = p.keying;
    bits = p.bits;
    size = p.size;
    at_least = p.at_least;
    at_most = p.at_most;
    hashed = λ i lt a. ground (arith, p.hashed i);
    unique = λ i j li lj ai aj e. elim (Bool-cases (r == i)) [
      | inl ri ↦ elim (Bool-cases (r == j)) [
        | inl rj ↦ ground arith
        | inr rj ↦ absurd (
            both_ways _ (same_key_symm text m p _ _ (rw (ri, rj) at e)) (absent j lj (rw rj at aj)))
      ]
      | inr ri ↦ elim (Bool-cases (r == j)) [
        | inl rj ↦ absurd (both_ways _ (rw (ri, rj) at e) (absent i li (rw ri at ai)))
        | inr rj ↦ p.unique i j li lj (rw ri at ai) (rw rj at aj) (rw (ri, rj) at e)
      ]
    ];
    reach = λ i lt a. elim (Bool-cases (r == i)) [
      | inl ri ↦
          let same : r ≡ i = ground arith in
          rw ri (
            rw (← same) (
              Reached-grow m.table inserted.table m.mask (m.hfunc text s.key) r still_full reached))
      | inr ri ↦
          rw ri
            (Reached-grow m.table inserted.table m.mask _ i still_full (p.reach i lt (rw ri at a)))
    ];
  }

-- Slots go out of use or get another value, and no slot becomes empty.
pub keep-Placed :
    (text : Text) (m : HashMap) (f c : ℕ) (t : ℕ → HashSlot)
    → Placed text m
    → ((i : ℕ)
        → is_active (t i).mode ≡ true
        → (is_active (m.table i).mode ≡ true)
          × ((t i).key ≡ (m.table i).key)
          × ((t i).hash ≡ (m.table i).hash))
    → ((l : ℕ) → is_empty_slot (m.table l).mode ≡ false → is_empty_slot (t l).mode ≡ false)
    → Placed text (rewritten m f c t)
keep-Placed text m f c t p kept full = record {
  keying = p.keying;
  bits = p.bits;
  size = p.size;
  at_least = p.at_least;
  at_most = p.at_most;
  hashed = λ i lt a. let (was, k, h) = kept i a in rw (k, h) (p.hashed i lt was);
  unique = λ i j li lj ai aj e.
      let (wi, ki, _) = kept i ai in
      let (wj, kj, _) = kept j aj in p.unique i j li lj wi wj (rw (ki, kj) at e);
  reach = λ i lt a.
      let (was, k, _) = kept i a in
      rw k (Reached-grow m.table t m.mask _ i full (p.reach i lt was));
}

-- The counts after a write to a slot.
pub write-Counted :
    (m : HashMap) (r : ℕ) (s : HashSlot) (f c : ℕ)
    → Counted m
    → r ≤ m.mask
    → f + (if in_use (m.table r) then 1 else 0) ≡ m.fill + (if in_use s then 1 else 0)
    → c + (if active_slot (m.table r) then 1 else 0) ≡ m.count + (if active_slot s then 1 else 0)
    → f < m.mask + 1
    → Counted (rewritten m f c (update m.table r s))
write-Counted m r s f c counts inside hf hc room = record {
  filled = omega (arith, tally-update in_use m.table r s (m.mask + 1) (omega arith), counts.filled);
  counted =
      omega
        (arith, tally-update active_slot m.table r s (m.mask + 1) (omega arith), counts.counted);
  room = room;
}
