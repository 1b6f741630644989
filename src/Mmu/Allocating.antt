-- ===== src/Mmu/Allocating.antt =====
-- `virtual_malloc` of kernel/mmu.c for one page.
use nebulea_os.Base.{
  ℕ, ◌+◌, ◌*◌, ◌/◌, ◌%◌, ◌^◌, ◌≤◌, ◌<◌, ◌≡◌, refl, ap, ◌∙◌, false, some, List, ◌∷◌, arith, ◌==◌,
}
use nebulea_os.Mmu.Memory.{
  page_of, pt_index, Mmu, pd_index, page_table_user_rw, allocate_physical_memory_address,
  get_physical_address, malloc_pages, virtual_malloc,
}
use nebulea_os.Mmu.FreeList.{FreePages}
use nebulea_os.Mmu.Paging.{table_at, Directory}
use nebulea_os.Mmu.Entries.{Entered, Entered-present}
use nebulea_os.Mmu.Filling.{
  filled, filled-present, filled-entry, same_tables, filled-Directory, filled-meaning,
}

-- The page `p` is handed out: it stands at its own address, and the directory stays in order.
pub record Handed (m m' : Mmu) (p : ℕ) (ps : List ℕ) : Type 0 where
  pub same_cr3 : m'.cr3 ≡ m.cr3
  pub directory : Directory m' m.cr3 ps
  pub present : (table_at m'.word m.cr3 (pd_index p) == 0) ≡ false
  pub meaning : (o : ℕ) → o < 4096 → get_physical_address (p + o) m.cr3 m' ≡ some (p + o)
  pub same_table : table_at m'.word m.cr3 (pd_index p) ≡ table_at m.word m.cr3 (pd_index p)
  pub entry : page_of (m'.word (table_at m'.word m.cr3 (pd_index p) + 4 * pt_index p)) ≡ p

-- The memory when the first free page has left the list
abbrev after_first : Mmu → ℕ → Mmu
after_first m p = record m { head = m.word p }

allocate_first :
    (m : Mmu) (p : ℕ) (ps : List ℕ)
    → FreePages m (p ∷ ps)
    → allocate_physical_memory_address m ≡ (p, after_first m p)
unfolding allocate_physical_memory_address
allocate_first m p ps f = ap (λ h. (h, after_first m h)) f.linked.0

after_first-Directory :
    (m : Mmu) (pgdir p : ℕ) (ps : List ℕ)
    → Directory m pgdir (p ∷ ps)
    → Directory (after_first m p) pgdir ps
after_first-Directory m pgdir p ps d = record {
  free = record { linked = d.free.linked.1; pages = d.free.pages.4 };
  aligned = d.aligned;
  apart = d.apart.1;
  tables_apart = λ i hi e. let (a, (_, b)) = d.tables_apart i hi e in (a, b);
  distinct = d.distinct;
}

malloc_one :
    (m t : Mmu) (p : ℕ) (ps : List ℕ) (ha : p < 2 ^ 32)
    (n : Entered t t.cr3 p page_table_user_rw ps)
    → allocate_physical_memory_address m ≡ (p, t)
    → (p == 0) ≡ false
    → malloc_pages 1 0 m ≡ some (p, filled t.cr3 page_table_user_rw (omega arith) t p p ps ha n)
unfolding malloc_pages
malloc_one m t p ps ha n e full =
    let first : (allocate_physical_memory_address m).0 ≡ p = ap (λ r. r.0) e in
    let second : (allocate_physical_memory_address m).1 ≡ t = ap (λ r. r.1) e in
    rw (malloc_pages, first, second, full, n.result) (rw first refl)

Entered-Handed :
    (m : Mmu) (p : ℕ) (ps : List ℕ)
    → p % 4096 ≡ 0
    → p + 4096 ≤ 2 ^ 32
    → (table_at m.word m.cr3 (pd_index p) == 0) ≡ false
    → (n : Entered m m.cr3 p page_table_user_rw ps) → (ha : p < 2 ^ 32)
    → Handed m (filled m.cr3 page_table_user_rw (omega arith) m p p ps ha n) p ps
Entered-Handed m p ps aligned low there n ha = record {
  same_cr3 = n.same_cr3;
  directory = filled-Directory m.cr3 7 (omega arith) m p p ps ha n;
  present = filled-present m.cr3 7 (omega arith) m p p ps ha n;
  meaning = λ o h.
      let same : (p + o) / 4096 ≡ p / 4096 = omega arith in
      let rest : p + (p + o) % 4096 ≡ p + o = omega arith in
      filled-meaning m.cr3 7 (omega arith) m p p ps ha n (p + o) same aligned low ∙ ap some rest;
  same_table =
      same_tables m.cr3 7 (omega arith) m p p ps ha n (pd_index p) (omega arith)
      ∙ n.old_tables (pd_index p) (omega arith) there;
  entry = filled-entry m.cr3 7 (omega arith) m p p ps ha n ∙ omega arith;
}

-- For a size from 1 to 4096, where the directory of cr3 is in order and the page table of the
-- first free page is there, virtual_malloc returns that page, mapped at its own address with all
-- its bytes, and the directory stays in order with the other free pages.
pub virtual_malloc-Handed :
    (m : Mmu) (size p : ℕ) (ps : List ℕ)
    → 0 < size
    → size ≤ 4096
    → Directory m m.cr3 (p ∷ ps)
    → (table_at m.word m.cr3 (pd_index p) == 0) ≡ false
    → (m' : Mmu) × (virtual_malloc size m ≡ some (p, m')) × Handed m m' p ps
unfolding virtual_malloc
virtual_malloc-Handed m size p ps some' one d there =
    let low : p + 4096 ≤ 0x10000000 = d.free.pages.2 in
    let t : Mmu = after_first m p in
    let ha : p < 2 ^ 32 = omega arith in
    let n : Entered t t.cr3 p page_table_user_rw ps =
      Entered-present t.cr3 7 (omega arith) t p ps ha refl (after_first-Directory m m.cr3 p ps d)
        there in
    let h = Entered-Handed t p ps d.free.pages.0 (omega arith) there n ha in
    let rounds : (size + 4095) / 4096 ≡ 1 = omega arith in
    let full : (p == 0) ≡ false = ground (arith, d.free.pages.1) in
    (
      filled t.cr3 7 (omega arith) t p p ps ha n,
      rw (virtual_malloc, rounds) (malloc_one m t p ps ha n (allocate_first m p ps d.free) full),
      record {
        same_cr3 = h.same_cr3;
        directory = h.directory;
        present = h.present;
        meaning = h.meaning;
        same_table = h.same_table;
        entry = h.entry;
      },
    )
