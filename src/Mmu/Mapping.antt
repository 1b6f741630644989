-- ===== src/Mmu/Mapping.antt =====
-- `map_page_from_virtual_address` of kernel/mmu.c: what addresses mean after it.
use nebulea_os.Base.{
  ℕ, ◌+◌, ◌*◌, ◌/◌, ◌%◌, ◌^◌, ◌≤◌, ◌<◌, ◌≡◌, refl, sym, ◌∙◌, true, false, some, List, ◌∷◌, arith,
  ◌==◌,
}
use nebulea_os.Mmu.Memory.{Mmu, pd_index, pt_index, map_page, get_physical_address}
use nebulea_os.Mmu.Paging.{table_at, Directory, get_physical_address-present}
use nebulea_os.Mmu.Entries.{Entered, Entered-present, Entered-created}
use nebulea_os.Mmu.Filling.{
  filled, same_tables, filled-present, filled-Directory, filled-meaning, filled-others,
}

-- After the mapping of `address` to the page `q`: the address means that page, every other page whose page table
-- was there means what it meant, the page tables that were there stay, and the directory is in order with the free pages `ps`.
pub record Mapped (m m' : Mmu) (pgdir address q : ℕ) (ps : List ℕ) : Type 0 where
  pub meaning : get_physical_address address pgdir m' ≡ some (q + address % 4096)
  pub others :
      (a : ℕ)
      → a < 2 ^ 32
      → (a / 4096 == address / 4096) ≡ false
      → (table_at m.word pgdir (pd_index a) == 0) ≡ false
      → get_physical_address a pgdir m' ≡ get_physical_address a pgdir m
  pub tables :
      (j : ℕ)
      → j < 1024
      → (table_at m.word pgdir j == 0) ≡ false
      → table_at m'.word pgdir j ≡ table_at m.word pgdir j
  pub directory : Directory m' pgdir ps

module _ (pgdir f : ℕ) (small : f < 4096) (m : Mmu) (address q : ℕ) (ps : List ℕ)
    (ha : address < 2 ^ 32) (n : Entered m pgdir address f (q ∷ ps)) where
  abbrev entry : Mmu
  entry = filled pgdir f small m address q (q ∷ ps) ha n

  -- The page has left the list.
  abbrev taken : Mmu
  taken = record entry { head = entry.word q }

  taken-Directory : Directory taken pgdir ps
  taken-Directory =
      let d = filled-Directory pgdir f small m address q (q ∷ ps) ha n in
      record {
        free = record { linked = d.free.linked.1; pages = d.free.pages.4 };
        aligned = d.aligned;
        apart = d.apart.1;
        tables_apart = λ j hj e. let (a, (_, b)) = d.tables_apart j hj e in (a, b);
        distinct = d.distinct;
      }

  -- The list is nothing to the meaning of an address.
  taken-same :
      (a : ℕ)
      → (table_at entry.word pgdir (pd_index a) == 0) ≡ false
      → get_physical_address a pgdir taken ≡ get_physical_address a pgdir entry
  taken-same a there =
      get_physical_address-present a pgdir taken there
      ∙ sym (get_physical_address-present a pgdir entry there)

  taken-others :
      (a : ℕ)
      → a < 2 ^ 32
      → (a / 4096 == address / 4096) ≡ false
      → (table_at m.word pgdir (pd_index a) == 0) ≡ false
      → get_physical_address a pgdir taken ≡ get_physical_address a pgdir m
  taken-others a h other there =
      let hj : pd_index a < 1024 = omega arith in
      let still : (table_at entry.word pgdir (pd_index a) == 0) ≡ false =
        rw
          (
            same_tables pgdir f small m address q (q ∷ ps) ha n (pd_index a) hj,
            n.old_tables (pd_index a) hj there,
          )
          there in
      taken-same a still ∙ filled-others pgdir f small m address q (q ∷ ps) ha n a h other there

  entered-Mapped : (map_page pgdir address f m ≡ some taken) × Mapped m taken pgdir address q ps
  unfolding map_page
  entered-Mapped =
      let at : n.after.head ≡ q = n.directory.free.linked.0 in
      let low : q + 4096 ≤ 0x10000000 = n.directory.free.pages.2 in
      (
        rw (map_page, n.result, at) refl,
        record {
          meaning =
              taken-same address (filled-present pgdir f small m address q (q ∷ ps) ha n)
              ∙ filled-meaning pgdir f small m address q (q ∷ ps) ha n address refl
                  n.directory.free.pages.0 (omega arith);
          others = taken-others;
          tables = λ j hj there.
              same_tables pgdir f small m address q (q ∷ ps) ha n j hj ∙ n.old_tables j hj there;
          directory = taken-Directory;
        },
      )

-- Where the directory and its page tables are whole pages, each once and none of them free, for
-- an address whose page table is there and flags that are not 0 and below 4096,
-- map_page_from_virtual_address maps the address to the first free page. Every other address
-- whose page table was there means what it meant, the page tables that were there stay, and the
-- directory stays in order with the other free pages.
pub map_page-Mapped :
    (pgdir f : ℕ) (m : Mmu) (address q : ℕ) (ps : List ℕ)
    → f < 4096
    → (f == 0) ≡ false
    → address < 2 ^ 32
    → Directory m pgdir (q ∷ ps)
    → (table_at m.word pgdir (pd_index address) == 0) ≡ false
    → (m' : Mmu) × (map_page pgdir address f m ≡ some m') × Mapped m m' pgdir address q ps
map_page-Mapped pgdir f m address q ps small hf ha d e =
    let (done, mapped) =
      entered-Mapped pgdir f small m address q ps ha
        (Entered-present pgdir f small m address (q ∷ ps) ha hf d e) in
    (_, done, mapped)

-- After the mapping of `address` where its page table was missing: `p` is the page table, whose
-- entries are zero but for that of the address.
pub record IsNewTable (m' : Mmu) (pgdir address p : ℕ) : Type 0 where
  pub table : table_at m'.word pgdir (pd_index address) ≡ p
  pub cleared : (j : ℕ) → j < 1024 → (pt_index address == j) ≡ false → m'.word (p + 4 * j) ≡ 0

Entered-IsNewTable :
    (pgdir f : ℕ) (small : f < 4096) (m : Mmu) (address p q : ℕ) (ps : List ℕ)
    (ha : address < 2 ^ 32) (n : Entered m pgdir address f (q ∷ ps))
    → n.table ≡ p
    → ((j : ℕ) → j < 1024 → n.after.word (p + 4 * j) ≡ 0)
    → IsNewTable (taken pgdir f small m address q ps ha n) pgdir address p
Entered-IsNewTable pgdir f small m address p q ps ha n at zeros = record {
  table =
      same_tables pgdir f small m address q (q ∷ ps) ha n (pd_index address) (omega arith)
      ∙ n.named
      ∙ at;
  cleared = λ j hj other.
      let away : (n.table + 4 * pt_index address == p + 4 * j) ≡ false =
        ground (arith, other, at) in
      rw away (zeros j hj);
}

-- Where the directory and its page tables are whole pages, each once and none of them free, for
-- an address whose page table is missing and flags that are not 0 and below 4096,
-- map_page_from_virtual_address makes the first free page the page table, whose other entries are
-- zero, and maps the address to the second. Every other address whose page table was there means
-- what it meant, the page tables that were there stay, and the directory stays in order with the
-- other free pages.
pub map_page-created :
    (pgdir f : ℕ) (m : Mmu) (address p q : ℕ) (ps : List ℕ)
    → f < 4096
    → (f == 0) ≡ false
    → address < 2 ^ 32
    → Directory m pgdir (p ∷ q ∷ ps)
    → (table_at m.word pgdir (pd_index address) == 0) ≡ true
    → (m' : Mmu) × (map_page pgdir address f m ≡ some m')
      × Mapped m m' pgdir address q ps
      × IsNewTable m' pgdir address p
map_page-created pgdir f m address p q ps small hf ha d e =
    let (n, at, zeros) = Entered-created pgdir f small m address p (q ∷ ps) ha hf d e in
    let (done, mapped) = entered-Mapped pgdir f small m address q ps ha n in
    (_, done, mapped, Entered-IsNewTable pgdir f small m address p q ps ha n at zeros)
