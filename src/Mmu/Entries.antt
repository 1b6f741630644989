-- ===== src/Mmu/Entries.antt =====
-- `get_ptable_entry_from_virtual_address` of kernel/mmu.c where a missing page table is created.
use Prim.Native.Nat.{bit_or}
use nebulea_os.Base.{
  ℕ, ◌+◌, ◌*◌, ◌^◌, ◌<◌, ◌≡◌, refl, ◌∙◌, true, false, some, List, ◌∷◌, arith, ◌==◌, inl, inr,
  Bool-cases,
}
use nebulea_os.Mmu.Memory.{
  Mmu, store, pd_index, pt_index, set_table_permission, create_table,
  allocate_physical_memory_address, get_ptable_entry,
}
use nebulea_os.Mmu.Paging.{table_at, Directory, other_page, store-FreePages, permit-table_at}
use nebulea_os.Mmu.Creating.{
  fresh_table, fresh_here, fresh_zero, fresh_others, fresh_words, fresh-Directory,
}

-- After the call: the page table of the address and the memory `m'`, with the free pages `ps'`
pub record Entered (m : Mmu) (pgdir address flags : ℕ) (ps' : List ℕ) : Type 0 where
  pub after : Mmu
  pub table : ℕ
  pub result :
      get_ptable_entry address pgdir true flags m ≡ some (table + 4 * pt_index address, after)
  pub named : table_at after.word pgdir (pd_index address) ≡ table
  pub present : (table == 0) ≡ false
  pub same_cr3 : after.cr3 ≡ m.cr3
  pub directory : Directory after pgdir ps'
  pub old_tables :
      (i : ℕ)
      → i < 1024
      → (table_at m.word pgdir i == 0) ≡ false
      → table_at after.word pgdir i ≡ table_at m.word pgdir i
  pub old_words :
      (i x : ℕ)
      → i < 1024
      → (table_at m.word pgdir i == 0) ≡ false
      → x < 4096
      → after.word (table_at m.word pgdir i + x) ≡ m.word (table_at m.word pgdir i + x)

module _ (pgdir f : ℕ) (small : f < 4096) where
  -- The entry of the directory gets other permissions.
  abbrev pub granted : Mmu → (i : ℕ) → Mmu
  granted m i = store m (pgdir + 4 * i) (bit_or (table_at m.word pgdir i) f)

  granted-Directory :
      (m : Mmu) (i : ℕ) (ps : List ℕ)
      → i < 1024
      → Directory m pgdir ps
      → Directory (granted m i) pgdir ps
  granted-Directory m i ps hi d =
      let same : (j : ℕ) → table_at (granted m i).word pgdir j ≡ table_at m.word pgdir j =
        permit-table_at f small m.word pgdir i in
      record {
        free = store-FreePages m pgdir (4 * i) _ ps d.aligned (omega arith) d.apart d.free;
        aligned = d.aligned;
        apart = d.apart;
        tables_apart = λ j hj e. rw (same j) (d.tables_apart j hj (rw (same j) at e));
        distinct =
            λ j k hj hk e g. d.distinct j k hj hk (rw (same j) at e) (rw (same j, same k) at g);
      }

  granted-words :
      (m : Mmu) (i j x : ℕ) (ps : List ℕ)
      → i < 1024
      → j < 1024
      → x < 4096
      → Directory m pgdir ps
      → (table_at m.word pgdir j == 0) ≡ false
      → (granted m i).word (table_at m.word pgdir j + x) ≡ m.word (table_at m.word pgdir j + x)
  granted-words m i j x ps hi hj hx d e =
      rw
        (other_page pgdir (table_at m.word pgdir j) (4 * i) x d.aligned (omega arith)
          (d.tables_apart j hj e).0 (omega arith) hx)
        refl

  -- The page table is there.
  pub Entered-present :
      (m : Mmu) (address : ℕ) (ps : List ℕ)
      → address < 2 ^ 32
      → (f == 0) ≡ false
      → Directory m pgdir ps
      → (table_at m.word pgdir (pd_index address) == 0) ≡ false
      → Entered m pgdir address f ps
  unfolding get_ptable_entry set_table_permission
  Entered-present m address ps ha hf d e =
      let i : ℕ = pd_index address in
      record {
        after = granted m i;
        table = table_at m.word pgdir i;
        result = rw (get_ptable_entry, e, hf) refl;
        named = permit-table_at f small m.word pgdir i i;
        present = e;
        same_cr3 = refl;
        directory = granted-Directory m i ps (omega arith) d;
        old_tables = λ j hj g. permit-table_at f small m.word pgdir i j;
        old_words = λ j x hj g hx. granted-words m i j x ps (omega arith) hj hx d g;
      }

-- The page table is created in the first free page, whose entries are all zero.
pub Entered-created :
    (pgdir f : ℕ) (small : f < 4096) (m : Mmu) (address p : ℕ) (ps : List ℕ)
    → address < 2 ^ 32
    → (f == 0) ≡ false
    → Directory m pgdir (p ∷ ps)
    → (table_at m.word pgdir (pd_index address) == 0) ≡ true
    → (n : Entered m pgdir address f ps) × (n.table ≡ p)
      × ((j : ℕ) → j < 1024 → n.after.word (p + 4 * j) ≡ 0)
unfolding get_ptable_entry set_table_permission create_table allocate_physical_memory_address
Entered-created pgdir f small m address p ps ha hf d e =
    let i : ℕ = pd_index address in
    let hi : i < 1024 = omega arith in
    let at : m.head ≡ p = d.free.linked.0 in
    let some' : (p == 0) ≡ false = ground (arith, d.free.pages.1) in
    let t : Mmu = fresh_table pgdir f small m p ps d i hi e in
    let dir : Directory t pgdir ps = fresh-Directory pgdir f small m p ps d i hi e in
    let here : table_at t.word pgdir i ≡ p = fresh_here pgdir f small m p ps d i hi e in
    let old : (j : ℕ)
        → j < 1024
        → (table_at m.word pgdir j == 0) ≡ false
        → table_at t.word pgdir j ≡ table_at m.word pgdir j =
      λ j hj g. elim (Bool-cases (i == j)) [
        | inl one ↦
            let s : i ≡ j = ground arith in
            absurd (let g' : (table_at m.word pgdir i == 0) ≡ false = rw (← s) at g in cc)
        | inr two ↦ fresh_others pgdir f small m p ps d i hi e j hj two
      ] in
    let apart : (pgdir == p) ≡ false = d.apart.0 in
    (
      record {
        after = granted pgdir f small t i;
        table = p;
        result =
            rw (get_ptable_entry, e, create_table, allocate_physical_memory_address, at, some', hf)
              refl;
        named = permit-table_at f small t.word pgdir i i ∙ here;
        present = some';
        same_cr3 = refl;
        directory = granted-Directory pgdir f small t i ps hi dir;
        old_tables = λ j hj g. permit-table_at f small t.word pgdir i j ∙ old j hj g;
        old_words = λ j x hj g hx.
            let same : table_at t.word pgdir j ≡ table_at m.word pgdir j = old j hj g in
            (rw same at (granted-words pgdir f small t i j x ps hi hj hx dir (rw same g)))
            ∙ fresh_words pgdir f small m p ps d i hi e j x hj hx g;
      },
      refl,
      λ j hj.
          let other : (pgdir + 4 * i == p + 4 * j) ≡ false =
            other_page pgdir p (4 * i) (4 * j) d.aligned d.free.pages.0 apart (omega arith)
              (omega arith) in
          rw other (rw other at (fresh_zero pgdir f small m p ps d i hi e j hj)),
    )
