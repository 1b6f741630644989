-- ===== src/HashTable/Storing.antt =====
-- `hash_set` and `hash_del` of kernel/hash.c: what a table holds after them.
use nebulea_os.Base.{
  ℕ, ◌+◌, ◌-◌, ◌*◌, ◌^◌, ◌≤◌, ◌<◌, ◌≡◌, ◌∙◌, refl, true, false, Option, none, some, arith, ◌&&◌,
  inl, inr, Bool-cases, ltb, leb,
}
use nebulea_os.Base.Int.{ℤ, pos, minus_one}
use nebulea_os.HashTable.Table.{
  Text, HashMap, HashSlot, SlotMode, is_active, is_empty_slot, empty_slot, hash_lookup, write_slot,
  add_slot, clear_slot, hash_update, resize, hash_minsize, set_in_map, del_in_map, hash_get,
}
use nebulea_os.HashTable.Searching.{both_ways}
use nebulea_os.HashTable.Valid.{same_key, Placed, Counted, Absent, hash_lookup-Located}
use nebulea_os.HashTable.Writing.{same_key_symm, same_key_trans}
use nebulea_os.HashTable.Resizing.{Sound, hash_update-Sound}
use nebulea_os.HashTable.Changes.{Outcome, Changed, renewed, added, cleared}

-- Where no memory is given, the table stays, and the change with it.
refused : (text : Text) (m0 : HashMap) → (code : ℤ) × (hash_update false text m0 ≡ some (code, m0))
unfolding hash_update resize
refused text m0 = elim (Bool-cases (leb (2 * (m0.mask + 1)) (3 * m0.fill))) [
  | inl full ↦ elim (Bool-cases (ltb (2 ^ 31 - 1) (2 * (m0.mask + 1)))) [
    | inl over ↦ (minus_one, rw (full, over, hash_update) refl)
    | inr fits ↦ (minus_one, rw (full, fits, hash_update) refl)
  ]
  | inr loose ↦
      elim (Bool-cases (ltb hash_minsize (m0.mask + 1) && leb (4 * m0.count) (m0.mask + 1))) [
        | inl sparse ↦ (minus_one, rw (loose, sparse, hash_update) refl)
        | inr full ↦ (pos 0, rw (loose, full, hash_update) refl)
      ]
]

-- The end of both: `hash_update` on the table with the changed slot.
settled :
    (text : Text) (m m0 : HashMap) (key : ℕ) (now : Option ℕ)
    → m.mask < 2 ^ 29
    → m0.mask ≡ m.mask
    → m0.fill ≤ m.fill + 1
    → ((a b : ℕ) → same_key text m0 a b ≡ same_key text m a b)
    → Placed text m0
      × Counted m0
      × (3 * m0.fill < 2 * (m0.mask + 1) + 3)
      × Outcome text m key now m0
    → Changed text m key now (hash_update true text m0)
settled text m m0 key now small e more same (p, c, load, outcome) =
    let (m', done, sound, keeps, sized) = hash_update-Sound text m0 p c load (omega arith) in
    (
      m',
      done,
      sound,
      λ k o held. keeps k _ (outcome k o held),
      record {
        fill_le = omega (arith, sized.fill_le);
        mask_le = λ b h g. sized.mask_le b (omega arith) (omega arith);
        keys = λ a b. sized.keys a b ∙ same a b;
      },
    )

pub set_in_map-Changed :
    (text : Text) (m : HashMap) (key value : ℕ)
    → Sound text m
    → m.mask < 2 ^ 29
    → Changed text m key (some value) (set_in_map true text m key value)
unfolding set_in_map
set_in_map-Changed text m key value sound small =
    let (r, e, l) = hash_lookup-Located text m key sound.placed sound.counts in
    elim l.outcome [
      | inl (there, same) ↦
          let (sound', outcome) = renewed text m key value r sound l.inside there same in
          rw (e, there, set_in_map)
            (
              _,
              refl,
              sound',
              outcome,
              record { fill_le = omega arith; mask_le = λ b h g. h; keys = λ a b. refl },
            )
      | inr (unused, absent) ↦
          rw (e, unused, set_in_map)
            (settled text m (add_slot m r key value (m.hfunc text key)) key (some value) small refl
              (ground arith) (λ a b. refl) (added text m key value r sound l unused absent))
    ]

unchanged :
    (text : Text) (m : HashMap) (key : ℕ)
    → Placed text m
    → Absent text m key
    → Outcome text m key none m
unchanged text m key p absent k o held = elim (Bool-cases (same_key text m key k)) [
  | inl e ↦ rw e (λ i lt a. elim (Bool-cases (same_key text m (m.table i).key k)) [
    | inl yes' ↦ absurd (
        both_ways _ (same_key_trans text m p _ k key yes' (same_key_symm text m p _ _ e))
          (absent i lt a))
    | inr no' ↦ no'
  ])
  | inr e ↦ rw e held
]

pub del_in_map-Changed :
    (text : Text) (m : HashMap) (key : ℕ)
    → Sound text m
    → m.mask < 2 ^ 29
    → Changed text m key none (del_in_map true text m key)
unfolding del_in_map
del_in_map-Changed text m key sound small =
    let (r, e, l) = hash_lookup-Located text m key sound.placed sound.counts in
    elim l.outcome [
      | inl (there, same) ↦
          rw (e, there, del_in_map)
            (settled text m (clear_slot m r) key none small refl (omega arith) (λ a b. refl)
              (cleared text m key r sound l.inside there same))
      | inr (unused, absent) ↦
          rw (e, unused, del_in_map)
            (
              m,
              refl,
              sound,
              unchanged text m key sound.placed absent,
              record { fill_le = omega arith; mask_le = λ b h g. h; keys = λ a b. refl },
            )
    ]

-- The same where no memory is given: the code tells nothing of the change, and the load may be high.
abbrev pub Stuck :
    Text → HashMap → (key : ℕ) → (now : Option ℕ) → nebulea_os.HashTable.Table.Returned → Type 0
Stuck text m key now out =
    (code : ℤ) × (m' : HashMap) × (out ≡ some (code, m'))
    × Placed text m'
    × Counted m'
    × Outcome text m key now m'

pub set_in_map-Stuck :
    (text : Text) (m : HashMap) (key value : ℕ)
    → Sound text m
    → Stuck text m key (some value) (set_in_map false text m key value)
unfolding set_in_map
set_in_map-Stuck text m key value sound =
    let (r, e, l) = hash_lookup-Located text m key sound.placed sound.counts in
    elim l.outcome [
      | inl (there, same) ↦
          let (sound', outcome) = renewed text m key value r sound l.inside there same in
          rw (e, there, set_in_map) (_, _, refl, sound'.placed, sound'.counts, outcome)
      | inr (unused, absent) ↦
          let m0 : HashMap = add_slot m r key value (m.hfunc text key) in
          let (code, done) = refused text m0 in
          let (p, c, _, outcome) = added text m key value r sound l unused absent in
          rw (e, unused, set_in_map) (code, m0, done, p, c, outcome)
    ]
