-- ===== src/SharedMemory/Sharing.antt =====
-- `shm_create` and `shm_acquire` of kernel/shared_memory.c together: one page for all who know the string.
use mathlib.Core.Path.{subst}
use nebulea_os.Base.{
  ℕ, ◌+◌, ◌/◌, ◌%◌, ◌≤◌, ◌<◌, ◌^◌, ◌≡◌, refl, sym, ap, ◌∙◌, true, false, some, List, ◌∷◌, arith,
  ◌==◌,
}
use nebulea_os.Base.Int.{ℤ, pos, ◌+ℤ◌, leb_ℤ}
use nebulea_os.HashTable.Table.{Text, HashMap, hash_get}
use nebulea_os.HashTable.Valid.{same_key}
use nebulea_os.HashTable.Resizing.{Sound}
use nebulea_os.HashTable.Keys.{IsStrcmp, of_strings, same_key-equal}
use nebulea_os.HashTable.Maps.{hash_set-hash_get}
use nebulea_os.Mmu.Memory.{Mmu, pd_index, page_table_user_rw, get_physical_address}
use nebulea_os.Mmu.Paging.{table_at, Directory}
use nebulea_os.Mmu.Entries.{Entered, Entered-present}
use nebulea_os.Mmu.Filling.{filled, filled-meaning}
use nebulea_os.Mmu.Allocating.{Handed, virtual_malloc-Handed}
use nebulea_os.SharedMemory.Calls.{
  Shared, max_shared_pages, Strcpy, publish, shm_create, shm_acquire,
}
use nebulea_os.SharedMemory.Copying.{IsCopy, copy-Sound}

-- The page `p` is created under the key, and `k` finds it.
pub record Shares (s s' : Shared) (p k : ℕ) (ps : List ℕ) : Type 0 where
  pub counted : s'.pages ≡ s.pages +ℤ pos 1
  pub handed : Handed s.mmu s'.mmu p ps
  pub acquired :
      (s'' : Shared) × (shm_acquire k s' ≡ some (p, s''))
      × ((o : ℕ) → o < 4096 → get_physical_address (p + o) s.mmu.cr3 s''.mmu ≡ some (p + o))

-- Who finds the address of a page gets it mapped.
abbrev Acquired : Shared → (k p pgdir : ℕ) → Type 0
Acquired s k p pgdir =
    (s'' : Shared) × (shm_acquire k s ≡ some (p, s''))
    × ((o : ℕ) → o < 4096 → get_physical_address (p + o) pgdir s''.mmu ≡ some (p + o))

acquire-maps :
    (s : Shared) (k p : ℕ) (ps : List ℕ)
    → p % 4096 ≡ 0
    → p + 4096 ≤ 2 ^ 32
    → Directory s.mmu s.mmu.cr3 ps
    → (table_at s.mmu.word s.mmu.cr3 (pd_index p) == 0) ≡ false
    → hash_get s.text s.map k 0 ≡ some p
    → Acquired s k p s.mmu.cr3
unfolding shm_acquire
acquire-maps s k p ps aligned low d there found =
    let ha : p < 2 ^ 32 = omega arith in
    let n : Entered s.mmu s.mmu.cr3 p page_table_user_rw ps =
      Entered-present s.mmu.cr3 7 (omega arith) s.mmu p ps ha refl d there in
    (
      record s { mmu = filled s.mmu.cr3 7 (omega arith) s.mmu p p ps ha n },
      rw (shm_acquire, found, n.result) refl,
      λ o lt.
          let same : (p + o) / 4096 ≡ p / 4096 = omega arith in
          let rest : p + (p + o) % 4096 ≡ p + o = omega arith in
          filled-meaning s.mmu.cr3 7 (omega arith) s.mmu p p ps ha n (p + o) same aligned low
          ∙ ap some rest,
    )

Handed-Acquired :
    (s : Shared) (m : Mmu) (k p : ℕ) (ps : List ℕ)
    → p % 4096 ≡ 0
    → p + 4096 ≤ 2 ^ 32
    → Handed m s.mmu p ps
    → hash_get s.text s.map k 0 ≡ some p
    → Acquired s k p m.cr3
Handed-Acquired s m k p ps aligned low h found =
    let d : Directory s.mmu s.mmu.cr3 ps =
      subst (λ c. Directory s.mmu c ps) (sym h.same_cr3) h.directory in
    let there : (table_at s.mmu.word s.mmu.cr3 (pd_index p) == 0) ≡ false =
      rw h.same_cr3 h.present in
    subst (λ c. Acquired s k p c) h.same_cr3 (acquire-maps s k p ps aligned low d there found)

module _ (strcmp : List ℕ → List ℕ → ℤ) (lib : IsStrcmp strcmp) (strcpy : Strcpy) where
  -- With fewer than 100 shared pages counted, a key that is not null and not in the table, which
  -- is a table of strings in order with at most 2 ^ 29 slots, memory at hand, the page directory
  -- in order with a first free page whose page table is there, a strcmp that is zero on equal
  -- strings and on no others, and a copy of the key that overlaps no string of the table or of
  -- the reader: shm_create returns that page and counts one more. shm_acquire by the reader's
  -- pointer to an equal string then returns it too, and the page is mapped at its own address.
  pub shm_create-shm_acquire :
      (s : Shared) (m : HashMap) (key_address key k p : ℕ) (ps : List ℕ)
      → s.map ≡ some (of_strings strcmp m)
      → Sound s.text (of_strings strcmp m)
      → m.mask < 2 ^ 29
      → leb_ℤ max_shared_pages s.pages ≡ false
      → (key == 0) ≡ false
      → hash_get s.text s.map key 0 ≡ some 0
      → Directory s.mmu s.mmu.cr3 (p ∷ ps)
      → (table_at s.mmu.word s.mmu.cr3 (pd_index p) == 0) ≡ false
      → IsCopy m s.text (strcpy s.text key_address key) key_address key k
      → s.text k ≡ s.text key
      → (s' : Shared) × (shm_create strcpy true key_address key s ≡ some (p, s'))
        × Shares s s' p k ps
  unfolding shm_create publish
  shm_create-shm_acquire s m key_address key k p ps at sound small room named absent d there copy
        equal =
      let text' : Text = strcpy s.text key_address key in
      let sound' : Sound text' (of_strings strcmp m) =
        copy-Sound strcmp lib m s.text text' key_address key k copy sound in
      let (mmu, given, handed) =
        virtual_malloc-Handed s.mmu 4096 p ps (omega arith) (omega arith) d there in
      let (m', done, _, reads) =
        hash_set-hash_get text' (of_strings strcmp m) key_address p sound' small in
      let one : text' key_address ≡ text' k = copy.copied ∙ sym equal ∙ sym copy.reader in
      let same : same_key text' (of_strings strcmp m) key_address k ≡ true =
        (same_key-equal strcmp lib text' m key_address k).1 one in
      let found : hash_get text' (some m') k 0 ≡ some p = reads k 0 ∙ rw same refl in
      let s' : Shared = record {
        pages = s.pages +ℤ pos 1;
        map = some m';
        text = text';
        mmu = mmu;
      } in
      let low : p + 4096 ≤ 0x10000000 = d.free.pages.2 in
      (
        s',
        rw (shm_create, room, named, absent, publish, given, at, done) refl,
        record {
          counted = refl;
          handed = handed;
          acquired = Handed-Acquired s' s.mmu k p ps d.free.pages.0 (omega arith) handed found;
        },
      )
