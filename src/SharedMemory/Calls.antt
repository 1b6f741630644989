-- ===== src/SharedMemory/Calls.antt =====
-- kernel/shared_memory.c: pages that processes find by a string. `strcpy` of the C library and the address
-- that `mem_alloc` gives for the copy of a key are arguments. A null pointer is 0, and `none` is a panic or a search
-- without end. What `shm_acquire` prints is left out.
use Prim.Native.Nat.{bit_or}
use nebulea_os.Base.{ℕ, Bool, true, not, Option, none, some, List, ◌==◌, if◌then◌else◌}
use nebulea_os.Base.Int.{ℤ, pos, ◌+ℤ◌, ◌-ℤ◌, ltb_ℤ, leb_ℤ}
use nebulea_os.HashTable.Table.{Text, HashMap, hash_get, hash_set, hash_del}
use nebulea_os.HashTable.Strings.{hash_init_string}
use nebulea_os.Mmu.Memory.{
  Mmu, store, page_of, page_table_user_rw, get_ptable_entry, virtual_malloc, virtual_free,
}

-- `NUMBER_SHARED_PAGES`, `hash_head`, and the memory that they use
pub record Shared : Type 0 where
  pub pages : ℤ
  pub map : Option HashMap
  pub text : Text
  pub mmu : Mmu

abbrev pub max_shared_pages : ℤ
max_shared_pages = pos 100

-- The strings after a copy to an address
abbrev pub Strcpy : Type 0
Strcpy = Text → (dest src : ℕ) → Text

-- `initalize_hash_head`, on memory that held `map`
unfoldable pub initialize_hash_head : (List ℕ → List ℕ → ℤ) → Bool → HashMap → Shared → Shared
initialize_hash_head strcmp allocated map s = record s {
  map = some (hash_init_string strcmp allocated map).1;
}

-- The end of `shm_create`, for a key that is new
unfoldable pub publish : Strcpy → Bool → (key_address key : ℕ) → Shared → Option (ℕ × Shared)
publish strcpy allocated key_address key s = elim (virtual_malloc 4096 s.mmu) [
  | none ↦ none
  | some (page, mmu) ↦
      elim (hash_set allocated (strcpy s.text key_address key) s.map key_address page) [
        | none ↦ none
        | some (code, map) ↦
            some (page, record s { map = map; text = strcpy s.text key_address key; mmu = mmu })
      ]
]

unfoldable pub shm_create : Strcpy → Bool → (key_address key : ℕ) → Shared → Option (ℕ × Shared)
shm_create strcpy allocated key_address key s =
    let t : Shared = record s { pages = s.pages +ℤ pos 1 } in
    if leb_ℤ max_shared_pages s.pages
    then some (0, s)
    else if key == 0
    then some (0, t)
    else elim (hash_get t.text t.map key 0) [
      | none ↦ none
      | some found ↦
          if not (found == 0) then some (0, t) else publish strcpy allocated key_address key t
    ]

unfoldable pub shm_acquire : ℕ → Shared → Option (ℕ × Shared)
shm_acquire key s = elim (hash_get s.text s.map key 0) [
  | none ↦ none
  | some address ↦ elim (get_ptable_entry address s.mmu.cr3 true page_table_user_rw s.mmu) [
    | none ↦ none
    | some (entry, mmu) ↦
        some (
          address,
          record s { mmu = store mmu entry (bit_or (page_of address) page_table_user_rw) },
        )
  ]
]

-- The end of `shm_release`, for an address that is not null
unfoldable pub withdraw_page : Bool → (key address : ℕ) → Shared → Option Shared
withdraw_page allocated key address s = elim (virtual_free address 4096 s.mmu) [
  | none ↦ none
  | some mmu ↦ elim (hash_del allocated s.text s.map key) [
    | none ↦ none
    | some (code, map) ↦ some (record s { map = map; mmu = mmu })
  ]
]

unfoldable pub shm_release : Bool → ℕ → Shared → Option Shared
shm_release allocated key s =
    let t : Shared = record s { pages = s.pages -ℤ pos 1 } in
    if ltb_ℤ s.pages (pos 0) then some s else elim (hash_get t.text t.map key 0) [
      | none ↦ none
      | some address ↦ if address == 0 then some t else withdraw_page allocated key address t
    ]
