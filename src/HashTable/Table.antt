-- ===== src/HashTable/Table.antt =====
-- kernel/hash.c and kernel/hash.h: an open hash table over pointers, with the functions of the source. A
-- `long` that is a hash is its 32 bits. The numbers of slots stay far below 2 ^ 31: 2 ^ 28 slots of 16 bytes fill the address
-- space, so `fill` and `count` do not overflow. Where a search does not end, the answer is `none`.
use Prim.Native.Nat.{bit_and}
use nebulea_os.Base.{
  ℕ, zero, suc, ◌+◌, ◌-◌, ◌*◌, ◌/◌, ◌%◌, ◌^◌, Bool, true, false, Option, none, some, List, ◌==◌,
  ◌&&◌, ◌||◌, ltb, leb, if◌then◌else◌, update,
}
use nebulea_os.Base.Int.{ℤ, pos, minus_one}

-- The strings in memory: what stands at an address, up to the NUL, as bytes.
abbrev pub Text : Type 0
Text = ℕ → List ℕ

-- A hash function and a comparison, which may read the memory behind their pointers.
abbrev pub HashFunc : Type 0
HashFunc = Text → ℕ → ℕ

abbrev pub HashCompare : Type 0
HashCompare = Text → ℕ → ℕ → Bool

pub data SlotMode : Type 0 where
  sl_empty sl_active sl_deleted : SlotMode

abbrev pub is_active : SlotMode → Bool
is_active SlotMode.sl_active = true
is_active _ = false

abbrev pub is_empty_slot : SlotMode → Bool
is_empty_slot SlotMode.sl_empty = true
is_empty_slot _ = false

pub record HashSlot : Type 0 where
  pub key : ℕ
  pub value : ℕ
  pub hash : ℕ
  pub mode : SlotMode

-- `table` maps the indices up to `mask` to their slots.
pub record HashMap : Type 0 where
  pub fill : ℕ
  pub count : ℕ
  pub mask : ℕ
  pub table : ℕ → HashSlot
  pub hfunc : HashFunc
  pub cmp : HashCompare

abbrev pub hash_minsize : ℕ
hash_minsize = 8

abbrev pub empty_slot : HashSlot
empty_slot = record { key = 0; value = 0; hash = 0; mode = SlotMode.sl_empty }

-- `hash_initialize` where the allocation succeeds.
unfoldable pub hash_initialize : HashMap → ℕ → HashMap
hash_initialize map size = record map {
  fill = 0;
  count = 0;
  mask = size - 1;
  table = λ i. empty_slot;
}

-- The test of `hash_lookup` on an active slot.
abbrev pub matches : Text → HashCompare → (key hash : ℕ) → HashSlot → Bool
matches text cmp key hash s = (s.key == key) || ((s.hash == hash) && cmp text s.key key)

-- `(freeslot == NULL) ? slot : freeslot`
abbrev pub or_free : Option ℕ → ℕ → ℕ
or_free none slot = slot
or_free (some free) slot = free

-- The loop of `hash_lookup`, with the rounds left: the index of the slot that it returns.
unfoldable pub lookup_from :
    (HashSlot → Bool) → (ℕ → HashSlot) → (mask rounds index perturb : ℕ) → Option ℕ → Option ℕ
lookup_from hit table mask zero index perturb free = none
lookup_from hit table mask (suc n) index perturb free =
    let slot : ℕ = bit_and index mask in
    let next : ℕ = (5 * index + perturb + 1) % 2 ^ 32 in
    elim (table slot).mode [
      | sl_empty ↦ some (or_free free slot)
      | sl_active ↦ elim (hit (table slot)) [
        | true ↦ some slot
        | false ↦ lookup_from hit table mask n next (perturb / 32) free
      ]
      | sl_deleted ↦ lookup_from hit table mask n next (perturb / 32) (some (or_free free slot))
    ]

-- `hash_lookup`, with as many rounds as the table has slots and 7 more.
unfoldable pub hash_lookup : Text → HashMap → (key hash : ℕ) → Option ℕ
hash_lookup text map key hash =
    lookup_from (matches text map.cmp key hash) map.table map.mask (map.mask + 8)
      (bit_and hash map.mask) hash none

abbrev pub write_slot : HashMap → ℕ → HashSlot → HashMap
write_slot map slot s = record map { table = update map.table slot s }

-- A slot of the old table is written to the place that `hash_lookup` gave.
abbrev pub copy_slot : HashMap → HashSlot → ℕ → HashMap
copy_slot map old slot = record (write_slot map slot (record old { mode = SlotMode.sl_active })) {
  fill = map.fill + 1;
  count = map.count + 1;
}

-- The loop of `hash_copy`, with the rounds left.
unfoldable pub hash_copy : Text → (ℕ → HashSlot) → (rounds i : ℕ) → HashMap → Option HashMap
hash_copy text old_table zero i map = some map
hash_copy text old_table (suc n) i map =
    let old : HashSlot = old_table i in
    elim old.mode [
      | sl_empty ↦ hash_copy text old_table n (i + 1) map
      | sl_deleted ↦ hash_copy text old_table n (i + 1) map
      | sl_active ↦ elim (hash_lookup text map old.key (map.hfunc text old.key)) [
        | none ↦ none
        | some slot ↦ hash_copy text old_table n (i + 1) (copy_slot map old slot)
      ]
    ]

-- What a function that returns an `int` leaves: the code, and the map.
abbrev pub Returned : Type 0
Returned = Option (ℤ × HashMap)

-- The end of `hash_update`; `allocated` says whether `mem_alloc` gave memory.
unfoldable pub resize : Bool → Text → ℕ → HashMap → Returned
resize false text new_size map = some (minus_one, map)
resize true text new_size map =
    elim (hash_copy text map.table (map.mask + 1) 0 (hash_initialize map new_size)) [
      | none ↦ none
      | some new ↦ some (pos 0, new)
    ]

unfoldable pub hash_update : Bool → Text → HashMap → Returned
hash_update allocated text map =
    let old_size : ℕ = map.mask + 1 in
    if leb (2 * old_size) (3 * map.fill)
    then (if ltb (2 ^ 31 - 1) (2 * old_size)
        then some (minus_one, map)
        else resize allocated text (2 * old_size) map)
    else if ltb hash_minsize old_size && leb (4 * map.count) old_size
    then resize allocated text (old_size / 2) map
    else some (pos 0, map)

-- `hash_init`, whatever `map` held before.
unfoldable pub hash_init : Bool → HashMap → HashFunc → HashCompare → ℤ × HashMap
hash_init false map hfunc cmp = (minus_one, map)
hash_init true map hfunc cmp =
    (pos 0, record (hash_initialize map hash_minsize) { hfunc = hfunc; cmp = cmp })

-- The functions with a map that may be null, which is `none`.
unfoldable pub hash_isset : Text → Option HashMap → ℕ → Option Bool
hash_isset text none key = some false
hash_isset text (some map) key = elim (hash_lookup text map key (map.hfunc text key)) [
  | none ↦ none
  | some slot ↦ some (is_active (map.table slot).mode)
]

unfoldable pub hash_get : Text → Option HashMap → (key default_value : ℕ) → Option ℕ
hash_get text none key default_value = some default_value
hash_get text (some map) key default_value = elim (hash_lookup text map key (map.hfunc text key)) [
  | none ↦ none
  | some slot ↦
      some (if is_active (map.table slot).mode then (map.table slot).value else default_value)
]

-- A new pair is written to the slot of an absent key.
abbrev pub add_slot : HashMap → (slot key value hash : ℕ) → HashMap
add_slot map slot key value hash =
    record (write_slot map slot
      (record { key = key; value = value; hash = hash; mode = SlotMode.sl_active })) {
        count = map.count + 1;
        fill = if is_empty_slot (map.table slot).mode then map.fill + 1 else map.fill;
      }

-- `hash_set` on a map that is not null.
unfoldable pub set_in_map : Bool → Text → HashMap → (key value : ℕ) → Returned
set_in_map allocated text map key value = elim (hash_lookup text map key (map.hfunc text key)) [
  | none ↦ none
  | some slot ↦
      if is_active (map.table slot).mode
      then some (pos 0, write_slot map slot (record (map.table slot) { value = value }))
      else hash_update allocated text (add_slot map slot key value (map.hfunc text key))
]

abbrev pub clear_slot : HashMap → ℕ → HashMap
clear_slot map slot =
    record (write_slot map slot
      (record { key = 0; value = 0; hash = 0; mode = SlotMode.sl_deleted })) {
        count = map.count - 1;
      }

-- `hash_del` on a map that is not null.
unfoldable pub del_in_map : Bool → Text → HashMap → ℕ → Returned
del_in_map allocated text map key = elim (hash_lookup text map key (map.hfunc text key)) [
  | none ↦ none
  | some slot ↦
      if is_active (map.table slot).mode
      then hash_update allocated text (clear_slot map slot)
      else some (pos 0, map)
]

-- The code and the pointer to the map, which is null or not as it was.
abbrev pub on_pointer : Returned → Option (ℤ × Option HashMap)
on_pointer none = none
on_pointer (some (code, map)) = some (code, some map)

unfoldable pub hash_set :
    Bool → Text → Option HashMap → (key value : ℕ) → Option (ℤ × Option HashMap)
hash_set allocated text none key value = some (minus_one, none)
hash_set allocated text (some map) key value = on_pointer (set_in_map allocated text map key value)

unfoldable pub hash_del : Bool → Text → Option HashMap → ℕ → Option (ℤ × Option HashMap)
hash_del allocated text none key = some (minus_one, none)
hash_del allocated text (some map) key = on_pointer (del_in_map allocated text map key)

-- `hash_direct_hfunc` and `hash_direct_cmp`
unfoldable pub hash_direct_hfunc : HashFunc
hash_direct_hfunc text key = key % 2 ^ 32

unfoldable pub hash_direct_cmp : HashCompare
hash_direct_cmp text key1 key2 = key1 == key2

unfoldable pub hash_init_direct : Bool → HashMap → ℤ × HashMap
hash_init_direct allocated map = hash_init allocated map hash_direct_hfunc hash_direct_cmp
