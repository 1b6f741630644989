-- ===== src/Mmu/Regions.antt =====
-- The loops of kernel/mmu.c over the pages of a region, and `set_address_permission`. Sizes are not negative.
use Prim.Native.Nat.{bit_or}
use nebulea_os.Base.{ℕ, zero, suc, ◌+◌, ◌*◌, ◌/◌, ◌%◌, ◌^◌, true, false, Option, none, some}
use nebulea_os.Mmu.Memory.{Mmu, store, page_of, page_table_user_rw, get_ptable_entry, map_page}

-- The loop of `map_region`, with the rounds left
unfoldable pub map_pages : (rounds total pdir address flags : ℕ) → Mmu → Option Mmu
map_pages zero total pdir address flags m = some m
map_pages (suc n) total pdir address flags m =
    elim (map_page pdir ((address + total) % 2 ^ 32) flags m) [
      | none ↦ none
      | some t ↦ map_pages n (total + 4096) pdir address flags t
    ]

-- `map_region`: one page for each total from 0 up to the size
unfoldable pub map_region : (pdir address flags size : ℕ) → Mmu → Option Mmu
map_region pdir address flags size m = map_pages (size / 4096 + 1) 0 pdir address flags m

-- The entries of a source and a destination, the destination with its page table
abbrev pub two_ptable_entries :
    (source source_pgdir dest dest_pgdir : ℕ) → Mmu → Option (ℕ × ℕ × Mmu)
two_ptable_entries source source_pgdir dest dest_pgdir m =
    elim (get_ptable_entry source source_pgdir false 0 m) [
      | none ↦ none
      | some (from, t) ↦ elim (get_ptable_entry dest dest_pgdir true page_table_user_rw t) [
        | none ↦ none
        | some (to, u) ↦ some (from, to, u)
      ]
    ]

-- The loop of `pgdir_copy`, with the rounds left
unfoldable pub copy_pages : (rounds i source_pgdir dest_pgdir source dest : ℕ) → Mmu → Option Mmu
copy_pages zero i source_pgdir dest_pgdir source dest m = some m
copy_pages (suc n) i source_pgdir dest_pgdir source dest m =
    elim (two_ptable_entries ((source + 4096 * i) % 2 ^ 32) source_pgdir
      ((dest + 4096 * i) % 2 ^ 32) dest_pgdir m) [
        | none ↦ none
        | some (from, to, u) ↦
            copy_pages n (i + 1) source_pgdir dest_pgdir source dest
              (store u to (bit_or (page_of (u.word from)) page_table_user_rw))
      ]

unfoldable pub pgdir_copy : (source_pgdir dest_pgdir source dest size : ℕ) → Mmu → Option Mmu
pgdir_copy source_pgdir dest_pgdir source dest size m =
    copy_pages ((size + 4095) / 4096) 0 source_pgdir dest_pgdir source dest m

-- `map_region_to_other_region`, with the pages left
unfoldable pub map_region_to_other_region : (nb_of_pages source dest : ℕ) → Mmu → Option Mmu
map_region_to_other_region zero source dest m = some m
map_region_to_other_region (suc n) source dest m =
    elim (two_ptable_entries source m.cr3 dest m.cr3 m) [
      | none ↦ none
      | some (from, to, u) ↦
          map_region_to_other_region n ((source + 4096) % 2 ^ 32) ((dest + 4096) % 2 ^ 32)
            (store u to (u.word from))
    ]

-- `set_address_permission`, without what it prints
unfoldable pub set_address_permission : (address pgdir flags : ℕ) → Mmu → Option Mmu
set_address_permission address pgdir flags m =
    elim (get_ptable_entry address pgdir true page_table_user_rw m) [
      | none ↦ none
      | some (entry, t) ↦ some (store t entry (bit_or (page_of (t.word entry)) flags))
    ]
