-- ===== src/HashTable/Maps.antt =====
-- A table of kernel/hash.c as a map from keys to values.
use nebulea_os.Base.{
  ℕ, ◌^◌, ◌<◌, ◌≡◌, refl, ap, ◌∙◌, Bool, true, false, Option, none, some, arith, inl, inr,
  Bool-cases, if◌then◌else◌,
}
use nebulea_os.Base.Int.{ℤ, pos}
use nebulea_os.HashTable.Table.{
  Text, HashFunc, HashCompare, HashMap, empty_slot, hash_initialize, hash_init, hash_get,
  hash_isset, hash_set, hash_del, on_pointer,
}
use nebulea_os.HashTable.Searching.{both_ways}
use nebulea_os.HashTable.Valid.{IsKeying, same_key, Placed, Counted, hash_lookup-Located}
use nebulea_os.HashTable.Holding.{
  Holds, or_default, is_some, Located-held, hash_get-Holds, hash_isset-Holds,
}
use nebulea_os.HashTable.Copying.{shaped}
use nebulea_os.HashTable.Resizing.{Sound}
use nebulea_os.HashTable.Storing.{set_in_map-Stuck, set_in_map-Changed, del_in_map-Changed}

some_or :
    (o : Option ℕ) (d : ℕ) → some (or_default o d) ≡ some (if is_some o then or_default o 0 else d)
some_or none d = refl
some_or (some v) d = refl

held : (text : Text) (m : HashMap) (key : ℕ) → Sound text m → (o : Option ℕ) × Holds text m key o
held text m key sound =
    let (r, e, l) = hash_lookup-Located text m key sound.placed sound.counts in
    Located-held text m key r l

-- What is read after a change of one key.
read_after :
    (text : Text) (m m' : HashMap) (key k d : ℕ) (now : Option ℕ)
    → Sound text m
    → Placed text m'
    → Counted m'
    → ((k' : ℕ) (o : Option ℕ)
        → Holds text m k' o
        → Holds text m' k' (if same_key text m key k' then now else o))
    → hash_get text (some m') k d
      ≡ (if same_key text m key k then some (or_default now d) else hash_get text (some m) k d)
read_after text m m' key k d now s p' c' outcome =
    let (o, was) = held text m k s in
    let before = hash_get-Holds text m k d o s.placed s.counts was in
    let after = hash_get-Holds text m' k d _ p' c' (outcome k o was) in
    rw (after, before)
      (elim (Bool-cases (same_key text m key k)) [ inl e ↦ rw e refl | inr e ↦ rw e refl ])

-- On a hash table in order (each active slot is met by a search for its key before any empty
-- slot, no two have the same key, fill and count are right, and less than two thirds of the slots
-- are filled) with at most 2 ^ 29 slots, hash_set with memory at hand ends, returns 0 and leaves
-- a table in order, resized if need be. hash_get then gives the value for that key, and what it
-- gave before for every other.
pub hash_set-hash_get :
    (text : Text) (m : HashMap) (key value : ℕ)
    → Sound text m
    → m.mask < 2 ^ 29
    → (m' : HashMap) × (hash_set true text (some m) key value ≡ some (pos 0, some m'))
      × Sound text m'
      × ((k d : ℕ)
          → hash_get text (some m') k d
            ≡ (if same_key text m key k then some value else hash_get text (some m) k d))
unfolding hash_set
hash_set-hash_get text m key value sound small =
    let (m', done, sound', outcome, _) = set_in_map-Changed text m key value sound small in
    (
      m',
      ap on_pointer done,
      sound',
      λ k d. read_after text m m' key k d (some value) sound sound'.placed sound'.counts outcome,
    )

-- On a hash table in order with at most 2 ^ 29 slots, hash_del with memory at hand ends, returns
-- 0 and leaves a table in order; hash_get then gives the default for that key, and what it gave
-- before for every other.
pub hash_del-hash_get :
    (text : Text) (m : HashMap) (key : ℕ)
    → Sound text m
    → m.mask < 2 ^ 29
    → (m' : HashMap) × (hash_del true text (some m) key ≡ some (pos 0, some m'))
      × Sound text m'
      × ((k d : ℕ)
          → hash_get text (some m') k d
            ≡ (if same_key text m key k then some d else hash_get text (some m) k d))
unfolding hash_del
hash_del-hash_get text m key sound small =
    let (m', done, sound', outcome, _) = del_in_map-Changed text m key sound small in
    (
      m',
      ap on_pointer done,
      sound',
      λ k d. read_after text m m' key k d none sound sound'.placed sound'.counts outcome,
    )

-- On a hash table in order, hash_isset tells whether hash_get gives one value whatever the
-- default is, or the default.
pub hash_isset-hash_get :
    (text : Text) (m : HashMap) (key : ℕ)
    → Sound text m
    → (b : Bool) × (v : ℕ) × (hash_isset text (some m) key ≡ some b)
      × ((d : ℕ) → hash_get text (some m) key d ≡ some (if b then v else d))
hash_isset-hash_get text m key sound =
    let (o, was) = held text m key sound in
    (
      is_some o,
      or_default o 0,
      hash_isset-Holds text m key o sound.placed sound.counts was,
      λ d. hash_get-Holds text m key d o sound.placed sound.counts was ∙ some_or o d,
    )

pub start :
    (text : Text) (m : HashMap)
    → IsKeying text m.hfunc m.cmp
    → Sound text (shaped m 0 0 7 (λ i. empty_slot))
start text m keying = record {
  placed = record {
    keying = keying;
    bits = 3;
    size = refl;
    at_least = omega arith;
    at_most = omega arith;
    hashed = λ i lt a. absurd (both_ways _ a refl);
    unique = λ i j li lj ai aj e. absurd (both_ways _ ai refl);
    reach = λ i lt a. absurd (both_ways _ a refl);
  };
  counts = record { filled = refl; counted = refl; room = omega arith };
  load = omega arith;
}

-- hash_init with memory at hand, a hash function into 32 bits and a comparison that is symmetric
-- and transitive returns 0 and leaves a table in order in which hash_get gives the default for
-- every key.
pub hash_init-hash_get :
    (text : Text) (m : HashMap) (hfunc : HashFunc) (cmp : HashCompare)
    → IsKeying text hfunc cmp
    → (m' : HashMap) × (hash_init true m hfunc cmp ≡ (pos 0, m'))
      × Sound text m'
      × ((k d : ℕ) → hash_get text (some m') k d ≡ some d)
unfolding hash_init hash_initialize
hash_init-hash_get text m hfunc cmp keying =
    let m' : HashMap = (hash_init true m hfunc cmp).1 in
    let d = start text (record m { hfunc = hfunc; cmp = cmp }) keying in
    (
      m',
      refl,
      d,
      λ k v.
          hash_get-Holds text m' k v none d.placed d.counts (λ i lt a. absurd (both_ways _ a refl)),
    )

-- On a hash table in order, hash_set without memory to resize ends with some code, and whatever
-- the code is the pair is in the table: hash_get gives the value for that key, and what it gave
-- before for every other.
pub hash_set-refused :
    (text : Text) (m : HashMap) (key value : ℕ)
    → Sound text m
    → (code : ℤ) × (m' : HashMap) × (hash_set false text (some m) key value ≡ some (code, some m'))
      × Placed text m'
      × Counted m'
      × ((k d : ℕ)
          → hash_get text (some m') k d
            ≡ (if same_key text m key k then some value else hash_get text (some m) k d))
unfolding hash_set
hash_set-refused text m key value sound =
    let (code, m', done, p, c, outcome) = set_in_map-Stuck text m key value sound in
    (
      code,
      m',
      ap on_pointer done,
      p,
      c,
      λ k d. read_after text m m' key k d (some value) sound p c outcome,
    )
