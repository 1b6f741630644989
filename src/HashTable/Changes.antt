-- ===== src/HashTable/Changes.antt =====
-- The writes of `hash_set` and `hash_del` of kernel/hash.c, before `hash_update`.
use nebulea_os.Base.{
  ℕ, ◌+◌, ◌-◌, ◌*◌, ◌≤◌, ◌<◌, ◌≡◌, refl, true, false, Option, none, some, arith, ◌==◌, inl, inr,
  Bool-cases, if◌then◌else◌, update,
}
use nebulea_os.Base.Int.{pos}
use nebulea_os.HashTable.Table.{
  Text, HashMap, HashSlot, SlotMode, is_active, is_empty_slot, empty_slot, hash_lookup, write_slot,
  add_slot, clear_slot, hash_update, resize, hash_minsize, set_in_map, del_in_map, hash_get,
}
use nebulea_os.HashTable.Searching.{both_ways}
use nebulea_os.HashTable.Valid.{
  same_key, active_at, in_use, active_slot, Placed, Counted, Absent, Located,
}
use nebulea_os.HashTable.Writing.{insert-Placed, keep-Placed, write-Counted}
use nebulea_os.HashTable.Holding.{Holds}
use nebulea_os.HashTable.Resizing.{Sound, active-in_use, eight_slots}
use nebulea_os.HashTable.Slots.{put-Holds, clear-Holds, occupied}

-- What a table holds after a change of a key: `now` for that key, and for all others what it held.
abbrev pub Outcome : Text → HashMap → (key : ℕ) → (now : Option ℕ) → HashMap → Type 0
Outcome text m key now m' =
    (k : ℕ) (o : Option ℕ)
    → Holds text m k o
    → Holds text m' k (if same_key text m key k then now else o)

-- How the table may grow by one change
pub record Grown (text : Text) (m m' : HashMap) : Type 0 where
  pub fill_le : m'.fill ≤ m.fill + 1
  pub mask_le : (b : ℕ) → m.mask ≤ b → 3 * (m.fill + 1) ≤ b → m'.mask ≤ b
  pub keys : (a b : ℕ) → same_key text m' a b ≡ same_key text m a b

-- After `hash_set` or `hash_del` of a key: the call ends and succeeds, the table is in order, and it
-- holds `now` for that key and what it held for all others.
abbrev pub Changed :
    Text → HashMap → (key : ℕ) → (now : Option ℕ) → nebulea_os.HashTable.Table.Returned → Type 0
Changed text m key now out =
    (m' : HashMap) × (out ≡ some (pos 0, m'))
    × Sound text m'
    × Outcome text m key now m'
    × Grown text m m'

-- The key has a slot: its value is replaced.
pub renewed :
    (text : Text) (m : HashMap) (key value r : ℕ) (sound : Sound text m)
    → r ≤ m.mask
    → (there : active_at m r ≡ true) → same_key text m (m.table r).key key ≡ true
    → let m' : HashMap = write_slot m r (record (m.table r) { value = value }) in
      Sound text m' × Outcome text m key (some value) m'
renewed text m key value r sound inside there same =
    let s : HashSlot = record (m.table r) { value = value } in
    (
      record {
        placed =
            keep-Placed text m m.fill m.count (update m.table r s) sound.placed
              (λ i a. elim (Bool-cases (r == i)) [
                | inl here ↦ let e : r ≡ i = ground arith in rw (here, ← e) (there, refl, refl)
                | inr else' ↦ rw else' (rw else' at a, refl, refl)
              ])
              (λ i full. elim (Bool-cases (r == i)) [
                | inl here ↦ let e : r ≡ i = ground arith in rw here (rw (← e) at full)
                | inr else' ↦ rw else' full
              ]);
        counts = write-Counted m r s m.fill m.count sound.counts inside refl refl sound.counts.room;
        load = sound.load;
      },
      put-Holds text m sound.placed key r inside (λ _. same) m.fill m.count s same there,
    )

-- The key has no slot: it takes the one that the search gave.
pub added :
    (text : Text) (m : HashMap) (key value r : ℕ)
    → Sound text m
    → Located text m key r
    → active_at m r ≡ false
    → Absent text m key
    → let m' : HashMap = add_slot m r key value (m.hfunc text key) in
      Placed text m'
      × Counted m'
      × (3 * m'.fill < 2 * (m'.mask + 1) + 3)
      × Outcome text m key (some value) m'
added text m key value r sound l unused absent =
    let s : HashSlot = record {
      key = key;
      value = value;
      hash = m.hfunc text key;
      mode = SlotMode.sl_active;
    } in
    let f : ℕ = if is_empty_slot (m.table r).mode then m.fill + 1 else m.fill in
    let same : same_key text m key key ≡ true = ground arith in
    let more : f ≤ m.fill + 1 = ground arith in
    let used : f + (if in_use (m.table r) then 1 else 0) ≡ m.fill + 1 = ground arith in
    (
      insert-Placed text m sound.placed r s f (m.count + 1) refl refl l.inside l.reached absent,
      write-Counted m r s f (m.count + 1) sound.counts l.inside used (rw unused (omega arith))
          (omega (arith, sound.load, more, eight_slots text m sound.placed)),
      omega (arith, more, sound.load),
      put-Holds text m sound.placed key r l.inside (λ a. absurd (both_ways _ a unused)) f
          (m.count + 1) s same refl,
    )

-- The slot of the key is deleted.
pub cleared :
    (text : Text) (m : HashMap) (key r : ℕ)
    → Sound text m
    → r ≤ m.mask
    → active_at m r ≡ true
    → same_key text m (m.table r).key key ≡ true
    → let m' : HashMap = clear_slot m r in
      Placed text m'
      × Counted m'
      × (3 * m'.fill < 2 * (m'.mask + 1) + 3)
      × Outcome text m key none m'
cleared text m key r sound inside there same =
    let s : HashSlot = record { key = 0; value = 0; hash = 0; mode = SlotMode.sl_deleted } in
    let some' : 0 < m.count = omega (
      arith,
      occupied active_slot m.table r (m.mask + 1) (omega arith) there refl,
      sound.counts.counted,
    ) in
    (
      keep-Placed text m m.fill (m.count - 1) (update m.table r s) sound.placed
          (λ i a. elim (Bool-cases (r == i)) [
            | inl here ↦ absurd (both_ways _ (rw here at a) refl)
            | inr else' ↦ rw else' (rw else' at a, refl, refl)
          ])
          (λ i full. elim (Bool-cases (r == i)) [
            | inl here ↦ rw here refl
            | inr else' ↦ rw else' full
          ]),
      write-Counted m r s m.fill (m.count - 1) sound.counts inside
          (rw (active-in_use (m.table r) there) refl) (rw there (omega arith)) sound.counts.room,
      omega (arith, sound.load),
      clear-Holds text m sound.placed key r inside (λ _. same) m.fill (m.count - 1) s refl there,
    )
