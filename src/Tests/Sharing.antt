-- ===== src/Tests/Sharing.antt =====
-- Shared memory at concrete inputs: a page under the key "hi".
use nebulea_os.Base.{
  ℕ, ◌≡◌, refl, Bool, true, some, [], ◌∷◌, arith, ◌==◌, update, if◌then◌else◌, inl, inr, Bool-cases,
}
use nebulea_os.Base.Int.{pos}
use nebulea_os.HashTable.Table.{Text, HashMap, hash_get}
use nebulea_os.HashTable.Resizing.{Sound}
use nebulea_os.HashTable.Keys.{Bytes, of_strings, hash_string-IsKeying}
use nebulea_os.HashTable.Maps.{start}
use nebulea_os.SharedMemory.Calls.{Shared, Strcpy, shm_create}
use nebulea_os.SharedMemory.Sharing.{Shares, shm_create-shm_acquire}
use nebulea_os.SharedMemory.Quota.{null_calls, null_calls-shm_create}
use nebulea_os.Tests.Hashing.{fresh_map, compare, compare-IsStrcmp}
use nebulea_os.Tests.Paging.{some_memory, some_memory-Directory}

-- The key stands at 1, another copy of it at 2, and 3 is the new buffer.
abbrev some_strings : Text
some_strings p = if p == 1 then 104 ∷ 105 ∷ [] else if p == 2 then 104 ∷ 105 ∷ [] else []

abbrev copy_string : Strcpy
copy_string text dest src = update text dest (text src)

abbrev some_shared : Shared
some_shared = record {
  pages = pos 0;
  map = some (of_strings compare fresh_map);
  text = some_strings;
  mmu = some_memory;
}

hi_text : Bytes (104 ∷ 105 ∷ [])
hi_text = (omega arith, (omega arith, tt))

some_strings-Bytes : (a : ℕ) → Bytes (some_strings a)
some_strings-Bytes a = elim (Bool-cases (a == 1)) [
  | inl e ↦ rw e hi_text
  | inr e ↦ elim (Bool-cases (a == 2)) [ inl g ↦ rw (e, g) hi_text | inr g ↦ rw (e, g) tt ]
]

copied-Bytes : (a : ℕ) → Bytes (copy_string some_strings 3 1 a)
copied-Bytes a = elim (Bool-cases (3 == a)) [
  | inl e ↦ rw e hi_text
  | inr e ↦ rw e (some_strings-Bytes a)
]

some_shared-Sound : Sound some_strings (of_strings compare fresh_map)
some_shared-Sound =
    start some_strings (of_strings compare fresh_map)
      (hash_string-IsKeying compare compare-IsStrcmp some_strings some_strings-Bytes)

not_there : hash_get some_strings (some (of_strings compare fresh_map)) 1 0 ≡ some 0
unfolding hash_get nebulea_os.HashTable.Table.hash_lookup nebulea_os.HashTable.Table.lookup_from
not_there = refl

shm_create-shm_acquire_example :
    (s : Shared) × (shm_create copy_string true 3 1 some_shared ≡ some (0x04000000, s))
    × Shares some_shared s 0x04000000 2 (0x04004000 ∷ 0x04008000 ∷ [])
shm_create-shm_acquire_example =
    shm_create-shm_acquire compare compare-IsStrcmp copy_string some_shared fresh_map 3 1 2
      0x04000000 (0x04004000 ∷ 0x04008000 ∷ []) refl some_shared-Sound (omega arith) refl refl
      not_there some_memory-Directory refl
      (record { copied = refl; kept = λ i lt a. absurd (cc); reader = refl; bytes = copied-Bytes })
      refl

null_calls-shm_create_example :
    (s : Shared) × (null_calls copy_string 100 some_shared ≡ some s)
    × (s.map ≡ some_shared.map)
    × ((allocated : Bool) (key_address key : ℕ)
        → shm_create copy_string allocated key_address key s ≡ some (0, s))
null_calls-shm_create_example = null_calls-shm_create copy_string some_shared refl
