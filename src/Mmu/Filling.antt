-- ===== src/Mmu/Filling.antt =====
-- A page table entry of kernel/mmu.c is filled: what addresses mean then.
use Prim.Native.Nat.{bit_or}
use mathlib.Core.Path.{subst}
use nebulea_os.Base.{
  ℕ, ◌+◌, ◌*◌, ◌/◌, ◌%◌, ◌^◌, ◌≤◌, ◌<◌, ◌≡◌, refl, sym, ap, ◌∙◌, true, false, some, List, arith,
  ◌==◌, inl, inr, Bool-cases,
}
use nebulea_os.Mmu.Memory.{Mmu, store, page_of, pd_index, pt_index, get_physical_address}
use nebulea_os.Mmu.FreeList.{Apart}
use nebulea_os.Mmu.Paging.{
  table_at, Directory, page_of-or, other_page, store-FreePages, table_at-elsewhere,
  get_physical_address-present,
}
use nebulea_os.Mmu.Entries.{Entered}

-- Two pages of one page table have two entries.
two_pages :
    (a b : ℕ)
    → (a / 4096 == b / 4096) ≡ false
    → pd_index b ≡ pd_index a
    → (4 * pt_index b == 4 * pt_index a) ≡ false
two_pages a b e same = ground arith

-- The entry of `address` gets the page `q`.
module _ (pgdir f : ℕ) (small : f < 4096) (m : Mmu) (address q : ℕ) (ps : List ℕ)
    (ha : address < 2 ^ 32) (n : Entered m pgdir address f ps) where
  aligned_table : n.table % 4096 ≡ 0
  aligned_table = omega (arith, n.named)

  abbrev pub filled : Mmu
  filled = store n.after (n.table + 4 * pt_index address) (bit_or (page_of q) f)

  hi : pd_index address < 1024
  hi = omega arith

  apart_dir : (pgdir == n.table) ≡ false
  apart_dir =
      rw n.named at (n.directory.tables_apart (pd_index address) hi (rw n.named n.present)).0

  not_free : Apart n.table ps
  not_free =
      subst (λ t. Apart t ps) n.named
        (n.directory.tables_apart (pd_index address) hi (rw n.named n.present)).1

  pub same_tables :
      (j : ℕ) → j < 1024 → table_at filled.word pgdir j ≡ table_at n.after.word pgdir j
  same_tables j hj =
      table_at-elsewhere n.after.word pgdir n.table (4 * pt_index address) _ j n.directory.aligned
        aligned_table apart_dir (omega arith) hj

  pub filled-present : (table_at filled.word pgdir (pd_index address) == 0) ≡ false
  filled-present = rw (same_tables (pd_index address) hi, n.named) n.present

  pub filled-entry :
      page_of (filled.word (table_at filled.word pgdir (pd_index address) + 4 * pt_index address))
      ≡ page_of q
  filled-entry =
      let t : table_at filled.word pgdir (pd_index address) ≡ n.table =
        same_tables (pd_index address) hi ∙ n.named in
      let self : (n.table + 4 * pt_index address == n.table + 4 * pt_index address) ≡ true =
        ground arith in
      rw (t, self) (page_of-or q f small)

  pub filled-Directory : Directory filled pgdir ps
  filled-Directory = record {
    free =
        store-FreePages n.after n.table (4 * pt_index address) _ ps aligned_table (omega arith)
          not_free n.directory.free;
    aligned = n.directory.aligned;
    apart = n.directory.apart;
    tables_apart = λ j hj e.
        rw (same_tables j hj) (n.directory.tables_apart j hj (rw (same_tables j hj) at e));
    distinct = λ j k hj hk e g.
        n.directory.distinct j k hj hk (rw (same_tables j hj) at e)
          (rw (same_tables j hj, same_tables k hk) at g);
  }

  pub filled-meaning :
      (a : ℕ)
      → a / 4096 ≡ address / 4096
      → q % 4096 ≡ 0
      → q + 4096 ≤ 2 ^ 32
      → get_physical_address a pgdir filled ≡ some (q + a % 4096)
  filled-meaning a one aligned low =
      let d : pd_index a ≡ pd_index address = omega arith in
      let i : pt_index a ≡ pt_index address = omega arith in
      let t : table_at filled.word pgdir (pd_index address) ≡ n.table =
        same_tables (pd_index address) hi ∙ n.named in
      let self : (n.table + 4 * pt_index address == n.table + 4 * pt_index address) ≡ true =
        ground arith in
      let page : page_of (bit_or (page_of q) f) ≡ page_of q = page_of-or q f small in
      let whole : (page_of q + a % 4096) % 2 ^ 32 ≡ q + a % 4096 = omega arith in
      get_physical_address-present a pgdir filled (rw (d, t) n.present)
      ∙ rw (d, i, t, self, page) (ap some whole)

  pub filled-others :
      (a : ℕ)
      → a < 2 ^ 32
      → (a / 4096 == address / 4096) ≡ false
      → (table_at m.word pgdir (pd_index a) == 0) ≡ false
      → get_physical_address a pgdir filled ≡ get_physical_address a pgdir m
  filled-others a h other there =
      let j : ℕ = pd_index a in
      let hj : j < 1024 = omega arith in
      let kept : table_at n.after.word pgdir j ≡ table_at m.word pgdir j =
        n.old_tables j hj there in
      let t : table_at filled.word pgdir j ≡ table_at m.word pgdir j = same_tables j hj ∙ kept in
      let away : (n.table + 4 * pt_index address == table_at m.word pgdir j + 4 * pt_index a)
          ≡ false =
        elim (Bool-cases (pd_index address == pd_index a)) [
          | inl one ↦
              let e : pd_index address ≡ pd_index a = ground arith in
              let s : table_at m.word pgdir j ≡ n.table =
                sym kept ∙ ap (table_at n.after.word pgdir) (sym e) ∙ n.named in
              let w = two_pages a address other e in rw s (ground (arith, w))
          | inr two ↦
              let s : (n.table == table_at m.word pgdir j) ≡ false =
                elim (Bool-cases (n.table == table_at m.word pgdir j)) [
                  | inl same ↦
                      let e : n.table ≡ table_at m.word pgdir j = ground arith in
                      let equal : pd_index address ≡ j =
                        n.directory.distinct (pd_index address) j hi hj (rw n.named n.present)
                          (n.named ∙ e ∙ sym kept) in
                      absurd (ground arith)
                  | inr out ↦ out
                ] in
              other_page n.table (table_at m.word pgdir j) (4 * pt_index address) (4 * pt_index a)
                aligned_table (omega arith) s (omega arith) (omega arith)
        ] in
      get_physical_address-present a pgdir filled (rw t there)
      ∙ rw (t, away, n.old_words j (4 * pt_index a) hj there (omega arith)) refl
      ∙ sym (get_physical_address-present a pgdir m there)
