-- ===== src/Tests/Paging.antt =====
-- The memory of kernel/mmu.c at concrete inputs: a page directory with one page table, and three free pages.
use nebulea_os.Base.{
  ℕ, ◌+◌, ◌*◌, ◌^◌, ◌≤◌, ◌<◌, ◌≡◌, refl, sym, ◌∙◌, false, none, some, List, [], ◌∷◌, arith, ◌==◌,
  inl, inr, Bool-cases, if◌then◌else◌, update,
}
use nebulea_os.Mmu.Memory.{
  Mmu, memory_start, init_free_list, allocate_physical_memory_address, free_physical_memory_address,
  map_page, pd_index, get_physical_address, fill_new_pgdir, virtual_malloc, virtual_free,
}
use nebulea_os.Mmu.FreeList.{Pages, FreePages, pages_from, free-allocate, init_free_list-FreePages}
use nebulea_os.Mmu.Paging.{table_at, Directory}
use nebulea_os.Mmu.Spaces.{fill_new_pgdir-get_physical_address}
use nebulea_os.Mmu.Allocating.{Handed, virtual_malloc-Handed}
use nebulea_os.Mmu.Freeing.{virtual_malloc-virtual_free}
use nebulea_os.Mmu.Regions.{map_region}
use nebulea_os.Mmu.Region.{HasTables, MappedRegion, map_region-MappedRegion}
use nebulea_os.Mmu.Mapping.{Mapped, IsNewTable, map_page-Mapped, map_page-created}

abbrev pub three_pages : List ℕ
three_pages = 0x04000000 ∷ 0x04004000 ∷ 0x04008000 ∷ []

-- The page directory stands at 4096, and its entry 16 names the page table at 8192.
abbrev some_words : ℕ → ℕ
some_words = update (update (update (λ a. 0) 4160 8195) 0x04000000 0x04004000) 0x04004000 0x04008000

abbrev pub some_memory : Mmu
some_memory = record { word = some_words; head = 0x04000000; cr3 = 4096 }

three_pages-Pages : Pages three_pages
three_pages-Pages = (
  refl,
  omega arith,
  omega arith,
  (refl, (refl, tt)),
  (refl, omega arith, omega arith, (refl, tt), (refl, omega arith, omega arith, tt, tt)),
)

some_tables : (i : ℕ) → i < 1024 → table_at some_words 4096 i ≡ (if i == 16 then 8192 else 0)
some_tables i h = elim (Bool-cases (i == 16)) [
  | inl first ↦ let e : i ≡ 16 = ground arith in rw e refl
  | inr later ↦
      let a : (4160 == 4096 + 4 * i) ≡ false = ground arith in
      let b : (0x04000000 == 4096 + 4 * i) ≡ false = ground arith in
      let c : (0x04004000 == 4096 + 4 * i) ≡ false = ground arith in rw (later, a, b, c) refl
]

only_one : (i : ℕ) → i < 1024 → (table_at some_words 4096 i == 0) ≡ false → i ≡ 16
only_one i h e = elim (Bool-cases (i == 16)) [
  | inl first ↦ ground arith
  | inr later ↦
      let z : table_at some_words 4096 i ≡ 0 = some_tables i h ∙ rw later refl in
      absurd (ground arith)
]

pub some_memory-Directory : Directory some_memory 4096 three_pages
some_memory-Directory = record {
  free = record { linked = (refl, (refl, (refl, refl))); pages = three_pages-Pages };
  aligned = refl;
  apart = (refl, (refl, (refl, tt)));
  tables_apart =
      λ i h e. let z : i ≡ 16 = only_one i h e in rw z (refl, (refl, (refl, (refl, tt))));
  distinct = λ i j hi hj e same.
      let z : i ≡ 16 = only_one i hi e in
      let y : j ≡ 16 = only_one j hj (rw same at e) in z ∙ sym y;
}

init_free_list-FreePages_example :
    (m : Mmu) × (init_free_list (record { word = λ a. 0; head = memory_start; cr3 = 0 }) ≡ some m)
    × FreePages m (pages_from 12288 memory_start)
init_free_list-FreePages_example =
    init_free_list-FreePages (record { word = λ a. 0; head = memory_start; cr3 = 0 }) refl

free-allocate_example :
    ((allocate_physical_memory_address (free_physical_memory_address 0x0400C000 some_memory)).0
      ≡ 0x0400C000)
    × FreePages
        (allocate_physical_memory_address (free_physical_memory_address 0x0400C000 some_memory)).1
        three_pages
free-allocate_example =
    free-allocate some_memory 0x0400C000 three_pages some_memory-Directory.free
      (refl, omega arith, omega arith, (refl, (refl, (refl, tt))), three_pages-Pages)

map_page-Mapped_example :
    (m : Mmu) × (map_page 4096 0x04005000 7 some_memory ≡ some m)
    × Mapped some_memory m 4096 0x04005000 0x04000000 (0x04004000 ∷ 0x04008000 ∷ [])
map_page-Mapped_example =
    map_page-Mapped 4096 7 some_memory 0x04005000 0x04000000 (0x04004000 ∷ 0x04008000 ∷ [])
      (omega arith) refl (omega arith) some_memory-Directory refl

map_page-created_example :
    (m : Mmu) × (map_page 4096 0x40000000 7 some_memory ≡ some m)
    × Mapped some_memory m 4096 0x40000000 0x04004000 (0x04008000 ∷ [])
    × IsNewTable m 4096 0x40000000 0x04000000
map_page-created_example =
    map_page-created 4096 7 some_memory 0x40000000 0x04000000 0x04004000 (0x04008000 ∷ [])
      (omega arith) refl (omega arith) some_memory-Directory refl

fill_new_pgdir-get_physical_address_example :
    ((a : ℕ)
      → a < 0x10000000
      → (table_at some_words 4096 (pd_index a) == 0) ≡ false
      → (12288 == table_at some_words 4096 (pd_index a)) ≡ false
      → get_physical_address a 12288 (fill_new_pgdir 12288 4096 some_memory)
        ≡ get_physical_address a 4096 some_memory)
    × ((a : ℕ)
        → 0x10000000 ≤ a
        → a < 2 ^ 32
        → get_physical_address a 12288 (fill_new_pgdir 12288 4096 some_memory) ≡ none)
fill_new_pgdir-get_physical_address_example =
    fill_new_pgdir-get_physical_address 12288 4096 refl refl refl some_memory

virtual_malloc-Handed_example :
    (m : Mmu) × (virtual_malloc 100 some_memory ≡ some (0x04000000, m))
    × Handed some_memory m 0x04000000 (0x04004000 ∷ 0x04008000 ∷ [])
virtual_malloc-Handed_example =
    virtual_malloc-Handed some_memory 100 0x04000000 (0x04004000 ∷ 0x04008000 ∷ []) (omega arith)
      (omega arith) some_memory-Directory refl

virtual_malloc-virtual_free_example :
    (m : Mmu) × (n : Mmu) × (virtual_malloc 100 some_memory ≡ some (0x04000000, m))
    × (virtual_free 0x04000000 100 m ≡ some n)
    × FreePages n three_pages
virtual_malloc-virtual_free_example =
    virtual_malloc-virtual_free some_memory 100 0x04000000 (0x04004000 ∷ 0x04008000 ∷ [])
      (omega arith) (omega arith) some_memory-Directory refl

some_memory-HasTables : HasTables some_memory 4096 0x04005000 2
some_memory-HasTables i h =
    let at : pd_index (0x04005000 + 4096 * i) ≡ 16 = omega arith in rw at refl

map_region-MappedRegion_example :
    (m : Mmu) × (map_region 4096 0x04005000 7 4096 some_memory ≡ some m)
    × MappedRegion some_memory m 4096 0x04005000 (0x04000000 ∷ 0x04004000 ∷ []) (0x04008000 ∷ [])
map_region-MappedRegion_example =
    map_region-MappedRegion 4096 7 0x04005000 4096 some_memory (0x04000000 ∷ 0x04004000 ∷ [])
      (0x04008000 ∷ []) (omega arith) refl refl (omega arith) some_memory-Directory
      some_memory-HasTables
