-- ===== src/Mmu/Creating.antt =====
-- A new page table of kernel/mmu.c: the first free page, cleared and entered in the directory.
use Prim.Native.Nat.{bit_or}
use nebulea_os.Base.{
  ℕ, zero, suc, ◌+◌, ◌*◌, ◌/◌, ◌%◌, ◌≤◌, ◌<◌, ◌≡◌, refl, sym, ap, ◌∙◌, true, false, List, ◌∷◌,
  arith, ◌==◌, update, inl, inr, Bool-cases,
}
use nebulea_os.Mmu.Memory.{Mmu, store, page_of, clear_table}
use nebulea_os.Mmu.FreeList.{Apart, FreePages}
use nebulea_os.Mmu.Paging.{
  table_at, Directory, page_of-or, other_page, store-FreePages, two_entries,
}

-- A page that is cleared, from entry `i` on
clear_table-FreePages :
    (n i p : ℕ) (m : Mmu) (ps : List ℕ)
    → i + n ≤ 1024
    → p % 4096 ≡ 0
    → Apart p ps
    → FreePages m ps
    → FreePages (record m { word = clear_table n i p m.word }) ps
unfolding clear_table
clear_table-FreePages zero i p m ps h hp apart free = free
clear_table-FreePages (suc n) i p m ps h hp apart free =
    clear_table-FreePages n (i + 1) p (store m (p + 4 * i) 0) ps (omega arith) hp apart
      (store-FreePages m p (4 * i) 0 ps hp (omega arith) apart free)

pub clear_table-elsewhere :
    (n i p q x : ℕ) (word : ℕ → ℕ)
    → i + n ≤ 1024
    → p % 4096 ≡ 0
    → q % 4096 ≡ 0
    → (p == q) ≡ false
    → x < 4096
    → clear_table n i p word (q + x) ≡ word (q + x)
unfolding clear_table
clear_table-elsewhere zero i p q x word h hp hq e hx = refl
clear_table-elsewhere (suc n) i p q x word h hp hq e hx =
    clear_table-elsewhere n (i + 1) p q x (update word (p + 4 * i) 0) (omega arith) hp hq e hx
    ∙ rw (other_page p q (4 * i) x hp hq e (omega arith) hx) refl

-- An entry that is zero stays so, and each entry of the page from `i` on is zero.
clear_table-kept : (n i p x : ℕ) (word : ℕ → ℕ) → word x ≡ 0 → clear_table n i p word x ≡ 0
unfolding clear_table
clear_table-kept zero i p x word e = e
clear_table-kept (suc n) i p x word e =
    clear_table-kept n (i + 1) p x (update word (p + 4 * i) 0) (ground (arith, e))

clear_table-zero :
    (n i p j : ℕ) (word : ℕ → ℕ) → i ≤ j → j < i + n → clear_table n i p word (p + 4 * j) ≡ 0
unfolding clear_table
clear_table-zero zero i p j word a b = absurd (omega arith)
clear_table-zero (suc n) i p j word a b = elim (Bool-cases (i == j)) [
  | inl one ↦
      let e : i ≡ j = ground arith in
      clear_table-kept n (i + 1) p (p + 4 * j) (update word (p + 4 * i) 0) (ground (arith, e))
  | inr later ↦
      clear_table-zero n (i + 1) p j (update word (p + 4 * i) 0) (ground arith) (omega arith)
]

module _ (pgdir f : ℕ) (small : f < 4096) (m : Mmu) (p : ℕ) (ps : List ℕ)
    (d : Directory m pgdir (p ∷ ps)) (i : ℕ) (hi : i < 1024)
    (missing : (table_at m.word pgdir i == 0) ≡ true) where
  page : p % 4096 ≡ 0
  page = d.free.pages.0

  not_dir : (p == pgdir) ≡ false
  not_dir = let e : (pgdir == p) ≡ false = d.apart.0 in ground arith

  -- The directory entry names the cleared page.
  abbrev pub fresh_table : Mmu
  fresh_table =
      store (record m { word = clear_table 1024 0 p m.word; head = m.word p }) (pgdir + 4 * i)
        (bit_or (page_of p) f)

  pub fresh_here : table_at fresh_table.word pgdir i ≡ p
  fresh_here =
      let s : (pgdir + 4 * i == pgdir + 4 * i) ≡ true = ground arith in
      let e : p / 4096 * 4096 ≡ p = omega (arith, page) in rw s (page_of-or p f small ∙ e)

  pub fresh_zero : (j : ℕ) → j < 1024 → fresh_table.word (p + 4 * j) ≡ 0
  fresh_zero j hj =
      rw (other_page pgdir p (4 * i) (4 * j) d.aligned page d.apart.0 (omega arith) (omega arith))
        (clear_table-zero 1024 0 p j m.word (omega arith) (omega arith))

  pub fresh_others :
      (j : ℕ)
      → j < 1024
      → (i == j) ≡ false
      → table_at fresh_table.word pgdir j ≡ table_at m.word pgdir j
  fresh_others j hj e = rw (two_entries pgdir i j e) (
      ap page_of (
        clear_table-elsewhere 1024 0 p pgdir (4 * j) m.word (omega arith) page d.aligned not_dir
          (omega arith)))

  pub fresh_words :
      (j x : ℕ)
      → j < 1024
      → x < 4096
      → (table_at m.word pgdir j == 0) ≡ false
      → fresh_table.word (table_at m.word pgdir j + x) ≡ m.word (table_at m.word pgdir j + x)
  fresh_words j x hj hx e =
      let (away, (other, _)) = d.tables_apart j hj e in
      let other' : (p == table_at m.word pgdir j) ≡ false = ground (arith, other) in
      rw
        (other_page pgdir (table_at m.word pgdir j) (4 * i) x d.aligned (omega arith) away
          (omega arith) hx)
        (clear_table-elsewhere 1024 0 p (table_at m.word pgdir j) x m.word (omega arith) page
          (omega arith) other' hx)

  fresh_free : FreePages fresh_table ps
  fresh_free =
      let (at, linked) = d.free.linked in
      let start : FreePages (record m { head = m.word p }) ps = record {
        linked = linked;
        pages = d.free.pages.4;
      } in
      store-FreePages (record m { word = clear_table 1024 0 p m.word; head = m.word p }) pgdir
        (4 * i) _ ps d.aligned (omega arith) d.apart.1
        (clear_table-FreePages 1024 0 p (record m { head = m.word p }) ps (omega arith) page
          d.free.pages.3 start)

  is_old :
      (j : ℕ)
      → j < 1024
      → (i == j) ≡ false
      → (table_at fresh_table.word pgdir j == 0) ≡ false
      → (table_at m.word pgdir j == 0) ≡ false
  is_old j hj e g = rw (fresh_others j hj e) at g

  fresh_unlike :
      (j : ℕ)
      → j < 1024
      → (i == j) ≡ false
      → (table_at fresh_table.word pgdir j == 0) ≡ false
      → p ≡ table_at fresh_table.word pgdir j
      → ⊥
  fresh_unlike j hj e g same =
      let other : (table_at m.word pgdir j == p) ≡ false =
        (d.tables_apart j hj (is_old j hj e g)).1.0 in
      let same' : p ≡ table_at m.word pgdir j = same ∙ fresh_others j hj e in
      let no' : (p == p) ≡ false = rw (← same') at other in absurd (ground arith)

  pub fresh-Directory : Directory fresh_table pgdir ps
  fresh-Directory = record {
    free = fresh_free;
    aligned = d.aligned;
    apart = d.apart.1;
    tables_apart = λ j hj g. elim (Bool-cases (i == j)) [
      | inl one ↦ let e : i ≡ j = ground arith in rw (← e, fresh_here) (d.apart.0, d.free.pages.3)
      | inr two ↦
          let (away, (_, rest)) = d.tables_apart j hj (is_old j hj two g) in
          rw (fresh_others j hj two) (away, rest)
    ];
    distinct = λ j k hj hk g same. elim (Bool-cases (i == j)) [
      | inl one ↦ elim (Bool-cases (i == k)) [
        | inl also ↦ ground arith
        | inr two ↦
            let e : i ≡ j = ground arith in
            let same' : p ≡ table_at fresh_table.word pgdir k =
              sym fresh_here ∙ (rw (← e) at same) in
            absurd (fresh_unlike k hk two (rw same at g) same')
      ]
      | inr two ↦ elim (Bool-cases (i == k)) [
        | inl one ↦
            let e : i ≡ k = ground arith in
            let same' : p ≡ table_at fresh_table.word pgdir j =
              sym fresh_here ∙ sym (rw (← e) at same) in
            absurd (fresh_unlike j hj two g same')
        | inr also ↦
            d.distinct j k hj hk (is_old j hj two g)
              (rw (fresh_others j hj two, fresh_others k hk also) at same)
      ]
    ];
  }
