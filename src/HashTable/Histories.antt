-- ===== src/HashTable/Histories.antt =====
-- A hash table of kernel/hash.c after any history of changes, against the plain reading of that history.
use mathlib.Core.Path.{subst}
use nebulea_os.Base.{
  ℕ, ◌+◌, ◌*◌, ◌^◌, ◌≤◌, ◌<◌, ◌≡◌, refl, ap, ◌∙◌, Bool, true, Option, none, some, List, [], ◌∷◌,
  arith, if◌then◌else◌, length,
}
use nebulea_os.Base.Int.{ℤ, pos}
use nebulea_os.HashTable.Table.{
  Text, HashFunc, HashCompare, HashMap, hash_initialize, hash_init, hash_get, hash_set, hash_del,
  on_pointer,
}
use nebulea_os.HashTable.Searching.{both_ways}
use nebulea_os.HashTable.Valid.{IsKeying, same_key}
use nebulea_os.HashTable.Holding.{Holds, or_default, hash_get-Holds}
use nebulea_os.HashTable.Resizing.{Sound}
use nebulea_os.HashTable.Storing.{set_in_map-Changed, del_in_map-Changed}
use nebulea_os.HashTable.Changes.{Grown, Outcome}
use nebulea_os.HashTable.Maps.{start}

pub data Change : Type 0 where
  set_key : (key value : ℕ) → Change
  del_key : (key : ℕ) → Change

-- The call of the table, with memory at hand
abbrev pub call : Text → HashMap → Change → Option (ℤ × Option HashMap)
call text m (Change.set_key key value) = hash_set true text (some m) key value
call text m (Change.del_key key) = hash_del true text (some m) key

abbrev pub calls : Text → HashMap → List Change → Option HashMap
calls text m [] = some m
calls text m (c ∷ cs) = elim (call text m c) [
  | none ↦ none
  | some (code, map) ↦ elim map [ none ↦ none | some m' ↦ calls text m' cs ]
]

abbrev pub key_of : Change → ℕ
key_of (Change.set_key key value) = key
key_of (Change.del_key key) = key

abbrev pub now_of : Change → Option ℕ
now_of (Change.set_key key value) = some value
now_of (Change.del_key key) = none

-- What a key stands for after a history: the last change of that key decides.
abbrev pub read_history : (ℕ → ℕ → Bool) → List Change → (k : ℕ) → Option ℕ → Option ℕ
read_history same [] k before = before
read_history same (c ∷ cs) k before =
    read_history same cs k (if same (key_of c) k then now_of c else before)

one_call :
    (text : Text) (m : HashMap) (c : Change)
    → Sound text m
    → m.mask < 2 ^ 29
    → (m' : HashMap) × (call text m c ≡ some (pos 0, some m'))
      × Sound text m'
      × Outcome text m (key_of c) (now_of c) m'
      × Grown text m m'
unfolding hash_set hash_del
one_call text m (Change.set_key key value) sound small =
    let (m', done, sound', outcome, grown) = set_in_map-Changed text m key value sound small in
    (m', ap on_pointer done, sound', outcome, grown)
one_call text m (Change.del_key key) sound small =
    let (m', done, sound', outcome, grown) = del_in_map-Changed text m key sound small in
    (m', ap on_pointer done, sound', outcome, grown)

-- Two notions of one key give one reading.
same_reading :
    (same same' : ℕ → ℕ → Bool) (cs : List Change) (k : ℕ) (before : Option ℕ)
    → ((a b : ℕ) → same a b ≡ same' a b)
    → read_history same cs k before ≡ read_history same' cs k before
same_reading same same' [] k before e = refl
same_reading same same' (c ∷ cs) k before e =
    same_reading same same' cs k _ e
    ∙ ap (λ b. read_history same' cs k (if b then now_of c else before)) (e (key_of c) k)

pub calls-Holds :
    (text : Text) (cs : List Change) (m : HashMap) (b : ℕ)
    → Sound text m
    → m.mask ≤ b
    → 3 * (m.fill + length cs) ≤ b
    → b < 2 ^ 29
    → (m' : HashMap) × (calls text m cs ≡ some m')
      × Sound text m'
      × ((k : ℕ) (o : Option ℕ)
          → Holds text m k o
          → Holds text m' k (read_history (same_key text m) cs k o))
calls-Holds text [] m b sound hm hf hb = (m, refl, sound, λ k o held. held)
calls-Holds text (c ∷ cs) m b sound hm hf hb =
    let (m1, one, sound1, outcome, grown) = one_call text m c sound (omega arith) in
    let (m2, rest, sound2, reads) =
      calls-Holds text cs m1 b sound1 (grown.mask_le b hm (omega arith))
        (omega (arith, grown.fill_le)) hb in
    (
      m2,
      rw (calls, one) rest,
      sound2,
      λ k o held.
          subst (Holds text m2 k)
            (same_reading (same_key text m1) (same_key text m) cs k _ grown.keys)
            (reads k _ (outcome k o held)),
    )

-- On a new hash table, with memory at hand, a hash function into 32 bits and a comparison that is
-- symmetric and transitive, any sequence of fewer than 2 ^ 27 calls of hash_set and hash_del ends
-- and leaves a table in order: hash_get gives for each key what the last of the calls on that key
-- set, or else the default.
pub calls-read_history :
    (text : Text) (m : HashMap) (hfunc : HashFunc) (cmp : HashCompare) (cs : List Change)
    → IsKeying text hfunc cmp
    → length cs < 2 ^ 27
    → (m' : HashMap) × (calls text (hash_init true m hfunc cmp).1 cs ≡ some m')
      × Sound text m'
      × ((k d : ℕ)
          → hash_get text (some m') k d
            ≡ some (
                or_default
                  (read_history (same_key text (hash_init true m hfunc cmp).1) cs k none)
                  d))
unfolding hash_init hash_initialize
calls-read_history text m hfunc cmp cs keying short =
    let m0 : HashMap = (hash_init true m hfunc cmp).1 in
    let sound = start text (record m { hfunc = hfunc; cmp = cmp }) keying in
    let (m', done, sound', reads) =
      calls-Holds text cs m0 (7 + 3 * length cs) sound (omega arith) (omega arith) (omega arith) in
    (
      m',
      done,
      sound',
      λ k d.
          hash_get-Holds text m' k d _ sound'.placed sound'.counts
            (reads k none (λ i lt a. absurd (both_ways _ a refl))),
    )
