-- ===== src/Mmu/Freeing.antt =====
-- `virtual_free` of kernel/mmu.c after `virtual_malloc`: the page is free again.
use Prim.Native.Nat.{bit_or}
use mathlib.Core.Path.{subst}
use nebulea_os.Base.{
  ℕ, ◌+◌, ◌*◌, ◌/◌, ◌≤◌, ◌<◌, ◌≡◌, refl, sym, false, some, List, ◌∷◌, arith, ◌==◌,
}
use nebulea_os.Mmu.Memory.{
  Mmu, store, page_of, pd_index, pt_index, page_table_rw, get_ptable_entry, virtual_malloc,
  free_pages, virtual_free, free_physical_memory_address,
}
use nebulea_os.Mmu.FreeList.{Apart, Pages, FreePages, free-FreePages}
use nebulea_os.Mmu.Paging.{table_at, Directory, store-FreePages}
use nebulea_os.Mmu.Allocating.{virtual_malloc-Handed}

-- A page whose entry names it goes back to the list.
free_one :
    (m : Mmu) (size p : ℕ) (ps : List ℕ)
    → 0 < size
    → size ≤ 4096
    → FreePages m ps
    → Pages (p ∷ ps)
    → (table_at m.word m.cr3 (pd_index p) == 0) ≡ false
    → Apart (table_at m.word m.cr3 (pd_index p)) (p ∷ ps)
    → page_of (m.word (table_at m.word m.cr3 (pd_index p) + 4 * pt_index p)) ≡ p
    → (m' : Mmu) × (virtual_free p size m ≡ some m') × FreePages m' (p ∷ ps)
unfolding virtual_free free_pages get_ptable_entry
free_one m size p ps some' one free pages there apart entry =
    let table : ℕ = table_at m.word m.cr3 (pd_index p) in
    let rounds : (size + 4095) / 4096 ≡ 1 = omega arith in
    (
      store (free_physical_memory_address p m) (table + 4 * pt_index p)
          (bit_or (page_of p) page_table_rw),
      rw (virtual_free, rounds, free_pages, get_ptable_entry, there, entry) refl,
      store-FreePages (free_physical_memory_address p m) table (4 * pt_index p) _ (p ∷ ps)
          (omega arith) (omega arith) apart (free-FreePages m p ps free pages),
    )

-- For a size from 1 to 4096, where the directory of cr3 is in order and the page table of the
-- first free page is there, virtual_free of what virtual_malloc has returned succeeds, and the
-- free pages are those before, in their order.
pub virtual_malloc-virtual_free :
    (m : Mmu) (size p : ℕ) (ps : List ℕ)
    → 0 < size
    → size ≤ 4096
    → Directory m m.cr3 (p ∷ ps)
    → (table_at m.word m.cr3 (pd_index p) == 0) ≡ false
    → (m' : Mmu) × (m'' : Mmu) × (virtual_malloc size m ≡ some (p, m'))
      × (virtual_free p size m' ≡ some m'')
      × FreePages m'' (p ∷ ps)
virtual_malloc-virtual_free m size p ps some' one d there =
    let (m', given, h) = virtual_malloc-Handed m size p ps some' one d there in
    let low : p + 4096 ≤ 0x10000000 = d.free.pages.2 in
    let apart : Apart (table_at m'.word m'.cr3 (pd_index p)) (p ∷ ps) =
      subst (λ c. Apart (table_at m'.word c (pd_index p)) (p ∷ ps)) (sym h.same_cr3)
        (subst (λ t. Apart t (p ∷ ps)) (sym h.same_table)
          (d.tables_apart (pd_index p) (omega arith) there).1) in
    let (m'', freed, free) =
      free_one m' size p ps some' one h.directory.free d.free.pages (rw h.same_cr3 h.present) apart
        (rw h.same_cr3 h.entry) in
    (m', m'', given, freed, free)
