-- ===== src/Tests/Hashing.antt =====
-- The hash table at concrete inputs: a table of pointers with one pair, and keys that fall on the same slot.
use Prim.Native.Nat.{bit_and}
use nebulea_os.Base.{
  zero, suc, not, Bool, ◌&&◌, ◌<◌, ◌^◌, ℕ, ◌≡◌, refl, true, false, none, some, List, [], ◌∷◌, arith,
  ◌==◌, inl, inr, Bool-cases, if◌then◌else◌,
}
use nebulea_os.Base.Int.{ℤ, pos, minus_one}
use nebulea_os.HashTable.Table.{
  Text, HashMap, empty_slot, add_slot, hash_lookup, hash_init, hash_get, hash_set, set_in_map,
  resize, hash_update, hash_lookup, is_empty_slot, is_active, matches, hash_direct_hfunc,
  hash_direct_cmp, lookup_from,
}
use nebulea_os.HashTable.Probing.{position}
use nebulea_os.HashTable.Valid.{same_key, Placed, Counted, Located, hash_lookup-Located}
use nebulea_os.HashTable.Resizing.{Sound}
use nebulea_os.HashTable.Changes.{added}
use nebulea_os.HashTable.Maps.{start, hash_set-refused}
use nebulea_os.HashTable.Keys.{hash_direct-IsKeying, IsStrcmp}
use nebulea_os.HashTable.Holding.{or_default}
use nebulea_os.HashTable.Histories.{Change, calls, read_history, calls-read_history}
use nebulea_os.HashTable.Full.{hash_lookup-full}

abbrev pub no_text : Text
no_text = λ p. []

abbrev pub fresh_map : HashMap
fresh_map = record {
  fill = 0;
  count = 0;
  mask = 7;
  table = λ i. empty_slot;
  hfunc = hash_direct_hfunc;
  cmp = hash_direct_cmp;
}

fresh_map-Sound : Sound no_text fresh_map
fresh_map-Sound = start no_text fresh_map (hash_direct-IsKeying no_text)

abbrev one_pair : HashMap
one_pair = add_slot fresh_map 2 42 7 42

fresh_place : Located no_text fresh_map 42 2
unfolding hash_direct_hfunc nebulea_os.HashTable.Probing.index_at
    nebulea_os.HashTable.Probing.perturb_at
fresh_place = record {
  inside = omega arith;
  reached = record { round = 0; there = refl; before = λ l lt. absurd (omega arith) };
  outcome = inr (refl, λ i lt a. absurd (cc));
}

one_pair-Sound : Sound no_text one_pair
unfolding hash_direct_hfunc
one_pair-Sound =
    let (p, c, _, _) =
      added no_text fresh_map 42 7 2 fresh_map-Sound fresh_place refl (λ i lt a. absurd (cc)) in
    record { placed = p; counts = c; load = omega arith }

hash_lookup-Located_example :
    (r : ℕ) × (hash_lookup no_text one_pair 50 (hash_direct_hfunc no_text 50) ≡ some r)
    × Located no_text one_pair 50 r
hash_lookup-Located_example =
    hash_lookup-Located no_text one_pair 50 one_pair-Sound.placed one_pair-Sound.counts

abbrev three_changes : List Change
three_changes = Change.set_key 42 7 ∷ Change.set_key 50 9 ∷ Change.del_key 42 ∷ []

calls-read_history_example :
    (m : HashMap) × (calls no_text
        (hash_init true one_pair hash_direct_hfunc hash_direct_cmp).1
        three_changes
      ≡ some m)
    × Sound no_text m
    × ((k d : ℕ)
        → hash_get no_text (some m) k d
          ≡ some (
              or_default
                (read_history
                  (same_key no_text (hash_init true one_pair hash_direct_hfunc hash_direct_cmp).1)
                  three_changes
                  k
                  none)
                d))
calls-read_history_example =
    calls-read_history no_text one_pair hash_direct_hfunc hash_direct_cmp three_changes
      (hash_direct-IsKeying no_text) (omega arith)

hash_set-refused_example :
    (code : ℤ) × (m : HashMap) × (hash_set false no_text (some one_pair) 50 9 ≡ some (code, some m))
    × Placed no_text m
    × Counted m
    × ((k d : ℕ)
        → hash_get no_text (some m) k d ≡ (
            if same_key no_text one_pair 50 k
            then some 9
            else hash_get no_text (some one_pair) k d))
hash_set-refused_example = hash_set-refused no_text one_pair 50 9 one_pair-Sound

-- The map after the keys below `n` were set, each in the slot of its number, with no new table.
abbrev filled : ℕ → HashMap
filled zero = fresh_map
filled (suc n) = add_slot (filled n) n n 9 n

-- All eight slots are in use.
abbrev full_map : HashMap
full_map = filled 8

-- `hash_set` without memory to resize fills the last slot.
last_filled : hash_set false no_text (some (filled 7)) 7 9 ≡ some (minus_one, some full_map)
unfolding hash_set set_in_map lookup_from hash_lookup resize hash_update hash_direct_hfunc
    hash_direct_cmp
last_filled = refl

abbrev all_below : ℕ → (ℕ → Bool) → Bool
all_below zero test = true
all_below (suc n) test = test n && all_below n test

all_below_lem : (n i : ℕ) (test : ℕ → Bool) → all_below n test ≡ true → i < n → test i ≡ true
all_below_lem zero i test e h = absurd (omega arith)
all_below_lem (suc n) i test e h = elim (Bool-cases (i == n)) [
  | inl last ↦ let at : i ≡ n = ground (arith, last) in rw at (ground (arith, e))
  | inr before ↦ all_below_lem n i test (ground (arith, e)) (ground (arith, before, h))
]

full_map-full : (i : ℕ) → i < 2 ^ 3 → is_empty_slot (full_map.table i).mode ≡ false
full_map-full i h =
    let none_empty = all_below_lem 8 i (λ j. not (is_empty_slot (full_map.table j).mode)) refl h in
    ground (arith, none_empty)

full_map-misses :
    (i : ℕ)
    → i < 2 ^ 3
    → is_active (full_map.table i).mode ≡ true
    → matches no_text full_map.cmp 8 8 (full_map.table i) ≡ false
unfolding hash_direct_cmp
full_map-misses i h active =
    let none_same =
      all_below_lem 8 i (λ j. not (matches no_text full_map.cmp 8 8 (full_map.table j))) refl h in
    ground (arith, none_same)

hash_lookup-full_example :
    lookup_from
      (matches no_text full_map.cmp 8 8)
      full_map.table
      full_map.mask
      1000
      (bit_and 8 full_map.mask)
      8
      none
    ≡ none
hash_lookup-full_example =
    hash_lookup-full no_text full_map 3 8 8 refl full_map-full full_map-misses 1000

-- A comparison of strings: zero where they are the same, else their order.
abbrev pub compare : List ℕ → List ℕ → ℤ
compare [] [] = pos 0
compare [] (y ∷ ys) = minus_one
compare (x ∷ xs) [] = pos 1
compare (x ∷ xs) (y ∷ ys) = if x == y then compare xs ys else pos 1

compare_equal : (xs ys : List ℕ) → compare xs ys ≡ pos 0 → xs ≡ ys
compare_equal [] [] e = refl
compare_equal [] (y ∷ ys) e = absurd (cc)
compare_equal (x ∷ xs) [] e = absurd (cc)
compare_equal (x ∷ xs) (y ∷ ys) e = elim (Bool-cases (x == y)) [
  | inl same ↦
      let h : x ≡ y = ground arith in let t : xs ≡ ys = compare_equal xs ys (rw same at e) in cc
  | inr other ↦ absurd (let f : pos 1 ≡ pos 0 = rw other at e in cc)
]

equal_compare : (xs : List ℕ) → compare xs xs ≡ pos 0
equal_compare [] = refl
equal_compare (x ∷ xs) = let same : (x == x) ≡ true = ground arith in rw same (equal_compare xs)

pub compare-IsStrcmp : IsStrcmp compare
compare-IsStrcmp = record { zero_equal = compare_equal; equal_zero = equal_compare }

abbrev two_texts : Text
two_texts p = if p == 1 then 104 ∷ 105 ∷ [] else if p == 2 then 104 ∷ 105 ∷ [] else []
