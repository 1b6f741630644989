-- ===== src/Mmu/Paging.antt =====
-- Page directories of kernel/mmu.c in order, and single writes to them.
use Prim.Native.Nat.{bit_or}
use nebulea_os.Base.{
  ℕ, ◌+◌, ◌*◌, ◌%◌, ◌^◌, ◌<◌, ◌≡◌, refl, ap, ◌∙◌, true, false, some, List, [], ◌∷◌, arith, ◌==◌,
  update, inl, inr, Bool-cases,
}
use nebulea_os.Base.Bits.{bit_or_low}
use nebulea_os.Mmu.Memory.{
  Mmu, store, page_of, pd_index, pt_index, get_ptable_entry, get_physical_address,
}
use nebulea_os.Mmu.FreeList.{Apart, Pages, FreePages, Linked-update}

-- The page table that an entry of a directory names, or 0
abbrev pub table_at : (ℕ → ℕ) → (pgdir i : ℕ) → ℕ
table_at word pgdir i = page_of (word (pgdir + 4 * i))

-- The directory and its page tables are whole pages, each once, and none is free.
pub record Directory (m : Mmu) (pgdir : ℕ) (ps : List ℕ) : Type 0 where
  pub free : FreePages m ps
  pub aligned : pgdir % 4096 ≡ 0
  pub apart : Apart pgdir ps
  pub tables_apart :
      (i : ℕ)
      → i < 1024
      → (table_at m.word pgdir i == 0) ≡ false
      → ((pgdir == table_at m.word pgdir i) ≡ false) × Apart (table_at m.word pgdir i) ps
  pub distinct :
      (i j : ℕ)
      → i < 1024
      → j < 1024
      → (table_at m.word pgdir i == 0) ≡ false
      → table_at m.word pgdir i ≡ table_at m.word pgdir j
      → i ≡ j

pub page_of-or : (x f : ℕ) → f < 4096 → page_of (bit_or (page_of x) f) ≡ page_of x
page_of-or x f h =
    let e : bit_or (page_of x) f ≡ page_of x + f = bit_or_low (page_of x) f 12 h (omega arith) in
    ap page_of e ∙ omega arith

-- Words of two pages are not the same.
pub other_page :
    (p q x y : ℕ)
    → p % 4096 ≡ 0
    → q % 4096 ≡ 0
    → (p == q) ≡ false
    → x < 4096
    → y < 4096
    → (p + x == q + y) ≡ false
other_page p q x y hp hq e hx hy =
    let ne : (p == q) ≡ false = e in
    elim (Bool-cases (p + x == q + y)) [
      | inl same ↦
          let s : p + x ≡ q + y = ground arith in
          let t : p ≡ q = omega arith in let u : (p == q) ≡ true = ground arith in absurd (cc)
      | inr other ↦ other
    ]

pub Apart-inside :
    (p x : ℕ) (ps : List ℕ) → p % 4096 ≡ 0 → x < 4096 → Pages ps → Apart p ps → Apart (p + x) ps
Apart-inside p x [] hp hx pages apart = tt
Apart-inside p x (q ∷ ps) hp hx (aligned, _, _, _, pages) (e, apart) =
    let one = other_page p q x 0 hp aligned e hx (omega arith) in
    (ground (arith, one), Apart-inside p x ps hp hx pages apart)

-- A write inside a page that is not free
pub store-FreePages :
    (m : Mmu) (p x v : ℕ) (ps : List ℕ)
    → p % 4096 ≡ 0
    → x < 4096
    → Apart p ps
    → FreePages m ps
    → FreePages (store m (p + x) v) ps
store-FreePages m p x v ps hp hx apart f = record {
  linked =
      Linked-update m.word (p + x) v m.head ps (Apart-inside p x ps hp hx f.pages apart) f.linked;
  pages = f.pages;
}

-- Two directory entries are two words.
pub two_entries : (p i j : ℕ) → (i == j) ≡ false → (p + 4 * i == p + 4 * j) ≡ false
two_entries p i j e = ground arith

module _ (f : ℕ) (small : f < 4096) where
  -- Other permissions name the same tables.
  pub permit-table_at :
      (word : ℕ → ℕ) (pgdir i j : ℕ)
      → table_at (update word (pgdir + 4 * i) (bit_or (table_at word pgdir i) f)) pgdir j
        ≡ table_at word pgdir j
  permit-table_at word pgdir i j = elim (Bool-cases (i == j)) [
    | inl one ↦
        let e : i ≡ j = ground arith in
        let s : (pgdir + 4 * i == pgdir + 4 * j) ≡ true = ground arith in
        rw s (rw (← e) (page_of-or (word (pgdir + 4 * i)) f small))
    | inr two ↦ rw (two_entries pgdir i j two) refl
  ]

-- A write to a page table leaves what the directory names.
pub table_at-elsewhere :
    (word : ℕ → ℕ) (pgdir t x v j : ℕ)
    → pgdir % 4096 ≡ 0
    → t % 4096 ≡ 0
    → (pgdir == t) ≡ false
    → x < 4096
    → j < 1024
    → table_at (update word (t + x) v) pgdir j ≡ table_at word pgdir j
table_at-elsewhere word pgdir t x v j hd ht e hx hj =
    let e' : (t == pgdir) ≡ false = ground arith in
    rw (other_page t pgdir x (4 * j) ht hd e' hx (omega arith)) refl

-- What an address means where its page table is there.
pub get_physical_address-present :
    (address pgdir : ℕ) (m : Mmu)
    → (table_at m.word pgdir (pd_index address) == 0) ≡ false
    → get_physical_address address pgdir m
      ≡ some (
          (page_of (m.word (table_at m.word pgdir (pd_index address) + 4 * pt_index address))
            + address % 4096)
          % 2 ^ 32)
unfolding get_physical_address get_ptable_entry
get_physical_address-present address pgdir m there =
    rw (get_physical_address, get_ptable_entry, there) refl
