-- ===== src/HashTable/Slots.antt =====
-- One slot of a table of kernel/hash.c is written or cleared: what the table holds then.
use nebulea_os.Base.{
  ℕ, ◌≤◌, ◌<◌, ◌≡◌, refl, Bool, true, false, Option, none, some, arith, ◌==◌, inl, inr, Bool-cases,
  if◌then◌else◌, update,
}
use nebulea_os.HashTable.Table.{Text, HashMap, HashSlot, is_active, empty_slot}
use nebulea_os.HashTable.Counting.{tally, tally-update}
use nebulea_os.HashTable.Searching.{both_ways}
use nebulea_os.HashTable.Valid.{same_key, active_at, Placed, Absent}
use nebulea_os.HashTable.Writing.{rewritten, same_key_symm, same_key_trans}
use nebulea_os.HashTable.Holding.{Holds, one_slot}

-- The slot `r` is written, whose key was the same if it was active.
module _ (text : Text) (m : HashMap) (p : Placed text m) (key r : ℕ) (inside : r ≤ m.mask)
    (before : active_at m r ≡ true → same_key text m (m.table r).key key ≡ true) where
  self : (r == r) ≡ true
  self = ground arith

  -- A slot of another key is not the one that is written.
  elsewhere :
      (k i : ℕ)
      → same_key text m key k ≡ false
      → active_at m i ≡ true
      → same_key text m (m.table i).key k ≡ true
      → (r == i) ≡ false
  elsewhere k i other a e = elim (Bool-cases (r == i)) [
    | inl here ↦
        let same : r ≡ i = ground arith in
        let was = before (rw same a) in
        absurd (
          both_ways _
            (same_key_trans text m p key (m.table r).key k (same_key_symm text m p _ _ was)
              (rw same e))
            other)
    | inr else' ↦ else'
  ]

  module _ (f c : ℕ) (s : HashSlot) (same : same_key text m s.key key ≡ true)
      (mode : is_active s.mode ≡ true) where
    put_same :
        (k : ℕ)
        → same_key text m key k ≡ true
        → Holds text (rewritten m f c (update m.table r s)) k (some s.value)
    put_same k e =
        (r, inside, rw self mode, rw self (same_key_trans text m p _ key k same e), rw self refl)

    put_other :
        (k : ℕ) (o : Option ℕ)
        → same_key text m key k ≡ false
        → Holds text m k o
        → Holds text (rewritten m f c (update m.table r s)) k o
    put_other k none e absent = λ i lt a. elim (Bool-cases (r == i)) [
      | inl here ↦ elim (Bool-cases (same_key text m s.key k)) [
        | inl yes' ↦ absurd (
            both_ways _ (same_key_trans text m p key s.key k (same_key_symm text m p _ _ same) yes')
              e)
        | inr no' ↦ rw here no'
      ]
      | inr else' ↦ rw else' (absent i lt (rw else' at a))
    ]
    put_other k (some v) e (i, lt, a, there, value) =
        let else' = elsewhere k i e a there in (i, lt, rw else' a, rw else' there, rw else' value)

    pub put-Holds :
        (k : ℕ) (o : Option ℕ)
        → Holds text m k o
        → Holds text
            (rewritten m f c (update m.table r s))
            k
            (if same_key text m key k then some s.value else o)
    put-Holds k o held = elim (Bool-cases (same_key text m key k)) [
      | inl e ↦ rw e (put_same k e)
      | inr e ↦ rw e (put_other k o e held)
    ]

  module _ (f c : ℕ) (s : HashSlot) (mode : is_active s.mode ≡ false)
      (there : active_at m r ≡ true) where
    clear_same :
        (k : ℕ)
        → same_key text m key k ≡ true
        → Absent text (rewritten m f c (update m.table r s)) k
    clear_same k e i lt a = elim (Bool-cases (r == i)) [
      | inl here ↦ absurd (both_ways _ (rw here at a) mode)
      | inr else' ↦ elim (Bool-cases (same_key text m (m.table i).key k)) [
        | inl yes' ↦
            let one : r ≡ i =
              one_slot text m p k r i inside lt there (rw else' at a)
                (same_key_trans text m p _ key k (before there) e) yes' in
            absurd (both_ways _ (ground arith) else')
        | inr no' ↦ rw else' no'
      ]
    ]

    clear_other :
        (k : ℕ) (o : Option ℕ)
        → same_key text m key k ≡ false
        → Holds text m k o
        → Holds text (rewritten m f c (update m.table r s)) k o
    clear_other k none e absent = λ i lt a. elim (Bool-cases (r == i)) [
      | inl here ↦ absurd (both_ways _ (rw here at a) mode)
      | inr else' ↦ rw else' (absent i lt (rw else' at a))
    ]
    clear_other k (some v) e (i, lt, a, there', value) =
        let else' = elsewhere k i e a there' in (i, lt, rw else' a, rw else' there', rw else' value)

    pub clear-Holds :
        (k : ℕ) (o : Option ℕ)
        → Holds text m k o
        → Holds text
            (rewritten m f c (update m.table r s))
            k
            (if same_key text m key k then none else o)
    clear-Holds k o held = elim (Bool-cases (same_key text m key k)) [
      | inl e ↦ rw e (clear_same k e)
      | inr e ↦ rw e (clear_other k o e held)
    ]

pub occupied :
    (q : HashSlot → Bool) (t : ℕ → HashSlot) (r n : ℕ)
    → r < n
    → q (t r) ≡ true
    → q empty_slot ≡ false
    → 0 < tally q t n
occupied q t r n h e out =
    let change = tally-update q t r empty_slot n h in omega (arith, rw (e, out) at change)
