-- ===== src/HashTable/Valid.antt =====
-- When a table of kernel/hash.c is in order, and what `hash_lookup` answers then.
use Prim.Native.Nat.{bit_and}
use nebulea_os.Base.{
  ℕ, ◌+◌, ◌-◌, ◌%◌, ◌^◌, ◌≤◌, ◌<◌, ◌≡◌, refl, sym, ap, ◌∙◌, Bool, true, false, not, none, some,
  arith, ◌==◌, ◌&&◌, ◌||◌, ◌⊎◌, inl, inr, Bool-cases,
}
use nebulea_os.Base.Bits.{bit_and_mask, pow_pos}
use native.Mathlib.Nat.{mod-lt, zero-add}
use nebulea_os.HashTable.Table.{
  Text, HashFunc, HashCompare, HashSlot, HashMap, is_active, is_empty_slot, matches, hash_lookup,
}
use nebulea_os.HashTable.Probing.{position, index_at, perturb_at, position_reach}
use nebulea_os.HashTable.Counting.{tally, tally_short}
use nebulea_os.HashTable.Searching.{Reached, Found, lookup_from-Found}

-- What a table asks of its functions: hashes are words, and to be equal goes both ways and on.
pub record IsKeying (text : Text) (hfunc : HashFunc) (cmp : HashCompare) : Type 0 where
  pub word : (a : ℕ) → hfunc text a < 2 ^ 32
  pub symm : (a b : ℕ) → cmp text a b ≡ true → cmp text b a ≡ true
  pub trans : (a b c : ℕ) → cmp text a b ≡ true → cmp text b c ≡ true → cmp text a c ≡ true

-- Whether two pointers are one key.
abbrev pub same_key : Text → HashMap → ℕ → ℕ → Bool
same_key text m a b = (a == b) || ((m.hfunc text a == m.hfunc text b) && m.cmp text a b)

abbrev pub active_at : HashMap → ℕ → Bool
active_at m i = is_active (m.table i).mode

abbrev pub in_use : HashSlot → Bool
in_use s = not (is_empty_slot s.mode)

abbrev pub active_slot : HashSlot → Bool
active_slot s = is_active s.mode

-- The table has 2 ^ `bits` slots. Each active slot has the hash of its key, is met by a search for
-- it, and no other has the same key.
pub record Placed (text : Text) (m : HashMap) : Type 0 where
  pub keying : IsKeying text m.hfunc m.cmp
  pub bits : ℕ
  pub size : m.mask ≡ 2 ^ bits - 1
  pub at_least : 3 ≤ bits
  pub at_most : bits ≤ 32
  pub hashed :
      (i : ℕ) → i ≤ m.mask → active_at m i ≡ true → (m.table i).hash ≡ m.hfunc text (m.table i).key
  pub unique :
      (i j : ℕ)
      → i ≤ m.mask
      → j ≤ m.mask
      → active_at m i ≡ true
      → active_at m j ≡ true
      → same_key text m (m.table i).key (m.table j).key ≡ true
      → i ≡ j
  pub reach :
      (i : ℕ)
      → i ≤ m.mask
      → active_at m i ≡ true
      → Reached m.table m.mask (m.hfunc text (m.table i).key) i

-- `fill` and `count` are what their comments in hash.h say, and some slot is empty.
pub record Counted (m : HashMap) : Type 0 where
  pub filled : m.fill ≡ tally in_use m.table (m.mask + 1)
  pub counted : m.count ≡ tally active_slot m.table (m.mask + 1)
  pub room : m.fill < m.mask + 1

-- No active slot has that key.
abbrev pub Absent : Text → HashMap → ℕ → Type 0
Absent text m key =
    (i : ℕ) → i ≤ m.mask → active_at m i ≡ true → same_key text m (m.table i).key key ≡ false

-- What `hash_lookup` answers.
pub record Located (text : Text) (m : HashMap) (key r : ℕ) : Type 0 where
  pub inside : r ≤ m.mask
  pub reached : Reached m.table m.mask (m.hfunc text key) r
  pub outcome :
      ((active_at m r ≡ true) × (same_key text m (m.table r).key key ≡ true))
      ⊎ ((active_at m r ≡ false) × Absent text m key)

size_pos : (text : Text) (m : HashMap) (p : Placed text m) → m.mask + 1 ≡ 2 ^ p.bits
size_pos text m p = omega (arith, p.size, pow_pos p.bits)

position_inside :
    (text : Text) (m : HashMap) → Placed text m → (hash j : ℕ) → position m.mask hash j ≤ m.mask
position_inside text m p hash j =
    let e : position m.mask hash j ≡ index_at m.mask hash j % 2 ^ p.bits =
      ap (bit_and (index_at m.mask hash j)) p.size ∙ bit_and_mask (index_at m.mask hash j) p.bits in
    omega (arith, e, mod-lt (index_at m.mask hash j) (pow_pos p.bits), size_pos text m p)

some_empty :
    (m : HashMap) → Counted m → (i : ℕ) × (i < m.mask + 1) × (is_empty_slot (m.table i).mode ≡ true)
some_empty m c =
    let (i, lt, out) = tally_short in_use m.table (m.mask + 1) (omega (arith, c.filled, c.room)) in
    (i, lt, ground arith)

-- The test on a slot is whether its key is the same.
matches-same_key :
    (text : Text) (m : HashMap) (key i : ℕ)
    → (m.table i).hash ≡ m.hfunc text (m.table i).key
    → matches text m.cmp key (m.hfunc text key) (m.table i) ≡ same_key text m (m.table i).key key
matches-same_key text m key i e = rw e refl

pub same_key-hash :
    (text : Text) (m : HashMap) (a b : ℕ)
    → same_key text m a b ≡ true
    → m.hfunc text a ≡ m.hfunc text b
same_key-hash text m a b e = elim (Bool-cases (a == b)) [
  | inl one ↦ let same : a ≡ b = ground arith in ap (m.hfunc text) same
  | inr two ↦ ground arith
]

Found-Located :
    (text : Text) (m : HashMap) (key r : ℕ)
    → Placed text m
    → Found (matches text m.cmp key (m.hfunc text key)) m.table m.mask (m.hfunc text key) r
    → Located text m key r
Found-Located text m key r p f =
    let inside : r ≤ m.mask =
      omega (arith, f.reached.there, position_inside text m p (m.hfunc text key) f.reached.round) in
    record {
      inside = inside;
      reached = f.reached;
      outcome = elim f.outcome [
        | inl (a, hit) ↦ inl (a, sym (matches-same_key text m key r (p.hashed r inside a)) ∙ hit)
        | inr (unused, none_hits) ↦ inr (
          unused,
          λ i lt a. elim (Bool-cases (same_key text m (m.table i).key key)) [
            | inl same ↦
                let e : m.hfunc text (m.table i).key ≡ m.hfunc text key =
                  same_key-hash text m (m.table i).key key same in
                sym (matches-same_key text m key i (p.hashed i lt a))
                ∙ none_hits i (rw e at (p.reach i lt a)) a
            | inr other ↦ other
          ],
        )
      ];
    }

-- Where the slots are in their places and some slot is empty, the search of hash_lookup ends: at
-- the active slot of the key if there is one, else at a slot not in use that the next search for
-- the key meets before any empty slot.
pub hash_lookup-Located :
    (text : Text) (m : HashMap) (key : ℕ)
    → Placed text m
    → Counted m
    → (r : ℕ) × (hash_lookup text m key (m.hfunc text key) ≡ some r) × Located text m key r
unfolding hash_lookup index_at perturb_at
hash_lookup-Located text m key p c =
    let h : ℕ = m.hfunc text key in
    let (i, lt, empty) = some_empty m c in
    let (j, early, there) =
      position_reach p.bits h i p.at_most (p.keying.word key)
        (omega (arith, lt, size_pos text m p)) in
    let there' : position m.mask h (0 + j) ≡ i = rw (zero-add, p.size) there in
    let (r, e, f) =
      lookup_from-Found (matches text m.cmp key h) m.table m.mask h (m.mask + 8) 0 none
        (λ l lt'. absurd (omega arith)) tt
        (j, omega (arith, early, size_pos text m p), rw there' empty) in
    (r, e, Found-Located text m key r p f)
