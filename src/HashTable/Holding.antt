-- ===== src/HashTable/Holding.antt =====
-- What a table of kernel/hash.c holds for a key, and that `hash_get` and `hash_isset` read it.
use nebulea_os.Base.{
  ℕ, ◌≤◌, ◌≡◌, refl, ap, Bool, true, false, Option, none, some, inl, inr, if◌then◌else◌,
}
use nebulea_os.HashTable.Table.{Text, HashMap, hash_get, hash_isset}
use nebulea_os.HashTable.Searching.{both_ways}
use nebulea_os.HashTable.Valid.{
  same_key, active_at, Placed, Counted, Absent, Located, hash_lookup-Located,
}
use nebulea_os.HashTable.Writing.{same_key_symm, same_key_trans}

-- An active slot of the key has that value, or no active slot has the key.
abbrev pub Holds : Text → HashMap → (key : ℕ) → Option ℕ → Type 0
Holds text m key none = Absent text m key
Holds text m key (some v) =
    (i : ℕ) × (i ≤ m.mask)
    × (active_at m i ≡ true)
    × (same_key text m (m.table i).key key ≡ true)
    × ((m.table i).value ≡ v)

abbrev pub or_default : Option ℕ → ℕ → ℕ
or_default none d = d
or_default (some v) d = v

abbrev pub is_some : Option ℕ → Bool
is_some none = false
is_some (some v) = true

-- Two active slots of one key are one.
pub one_slot :
    (text : Text) (m : HashMap) (p : Placed text m) (key i j : ℕ)
    → i ≤ m.mask
    → j ≤ m.mask
    → active_at m i ≡ true
    → active_at m j ≡ true
    → same_key text m (m.table i).key key ≡ true
    → same_key text m (m.table j).key key ≡ true
    → i ≡ j
one_slot text m p key i j li lj ai aj ei ej =
    p.unique i j li lj ai aj (same_key_trans text m p _ key _ ei (same_key_symm text m p _ key ej))

-- The slot where the search for a key ends tells what the table holds.
pub Located-Holds :
    (text : Text) (m : HashMap) (p : Placed text m) (key r : ℕ) (o : Option ℕ)
    → Located text m key r
    → Holds text m key o
    → (active_at m r ≡ is_some o)
      × ((d : ℕ) → (if active_at m r then (m.table r).value else d) ≡ or_default o d)
Located-Holds text m p key r none l absent = elim l.outcome [
  | inl (active, same) ↦ absurd (both_ways _ same (absent r l.inside active))
  | inr (unused, _) ↦ (unused, λ d. rw unused refl)
]
Located-Holds text m p key r (some v) l (i, lt, active, same, value) = elim l.outcome [
  | inl (there, also) ↦
      let e : r ≡ i = one_slot text m p key r i l.inside lt there active also same in
      (there, λ d. rw (there, e) value)
  | inr (_, absent) ↦ absurd (both_ways _ same (absent i lt active))
]

pub Located-held :
    (text : Text) (m : HashMap) (key r : ℕ)
    → Located text m key r
    → (o : Option ℕ) × Holds text m key o
Located-held text m key r l = elim l.outcome [
  | inl (there, same) ↦ (some (m.table r).value, (r, l.inside, there, same, refl))
  | inr (_, absent) ↦ (none, absent)
]

pub hash_get-Holds :
    (text : Text) (m : HashMap) (key d : ℕ) (o : Option ℕ)
    → Placed text m
    → Counted m
    → Holds text m key o
    → hash_get text (some m) key d ≡ some (or_default o d)
unfolding hash_get
hash_get-Holds text m key d o p c held =
    let (r, e, l) = hash_lookup-Located text m key p c in
    rw (e, hash_get) (ap some ((Located-Holds text m p key r o l held).1 d))

pub hash_isset-Holds :
    (text : Text) (m : HashMap) (key : ℕ) (o : Option ℕ)
    → Placed text m
    → Counted m
    → Holds text m key o
    → hash_isset text (some m) key ≡ some (is_some o)
unfolding hash_isset
hash_isset-Holds text m key o p c held =
    let (r, e, l) = hash_lookup-Located text m key p c in
    rw (e, hash_isset) (ap some (Located-Holds text m p key r o l held).0)
