-- ===== src/Mmu/Spaces.antt =====
-- `fill_new_pgdir` of kernel/mmu.c: a new process sees the kernel and nothing else.
use nebulea_os.Base.{
  ℕ, zero, suc, ◌+◌, ◌*◌, ◌%◌, ◌^◌, ◌≤◌, ◌<◌, ◌≡◌, refl, sym, ap, ◌∙◌, true, false, none, arith,
  ◌==◌, update, inl, inr, Bool-cases,
}
use nebulea_os.Mmu.Memory.{
  Mmu, page_of, pd_index, pt_index, clear_table, copy_entries, fill_new_pgdir, get_ptable_entry,
  get_physical_address,
}
use nebulea_os.Mmu.Paging.{table_at, other_page, two_entries, get_physical_address-present}
use nebulea_os.Mmu.Creating.{clear_table-elsewhere}

module _ (d s : ℕ) (hd : d % 4096 ≡ 0) (hs : s % 4096 ≡ 0) (other : (d == s) ≡ false) where
  copy_entries-elsewhere :
      (n i q x : ℕ) (word : ℕ → ℕ)
      → i + n ≤ 1024
      → q % 4096 ≡ 0
      → (d == q) ≡ false
      → x < 4096
      → copy_entries n i d s word (q + x) ≡ word (q + x)
  unfolding copy_entries
  copy_entries-elsewhere zero i q x word h hq e hx = refl
  copy_entries-elsewhere (suc n) i q x word h hq e hx =
      copy_entries-elsewhere n (i + 1) q x (update word (d + 4 * i) (word (s + 4 * i)))
        (omega arith) hq e hx
      ∙ rw (other_page d q (4 * i) x hd hq e (omega arith) hx) refl

  copy_entries-before :
      (n i j : ℕ) (word : ℕ → ℕ)
      → i + n ≤ 1024
      → j < i
      → copy_entries n i d s word (d + 4 * j) ≡ word (d + 4 * j)
  unfolding copy_entries
  copy_entries-before zero i j word h hj = refl
  copy_entries-before (suc n) i j word h hj =
      let e : (i == j) ≡ false = ground arith in
      copy_entries-before n (i + 1) j (update word (d + 4 * i) (word (s + 4 * i))) (omega arith)
        (omega arith)
      ∙ rw (two_entries d i j e) refl

  copy_entries-copied :
      (n i j : ℕ) (word : ℕ → ℕ)
      → i + n ≤ 1024
      → i ≤ j
      → j < i + n
      → copy_entries n i d s word (d + 4 * j) ≡ word (s + 4 * j)
  unfolding copy_entries
  copy_entries-copied zero i j word h low high = absurd (omega arith)
  copy_entries-copied (suc n) i j word h low high = elim (Bool-cases (i == j)) [
    | inl one ↦
        let e : i ≡ j = ground arith in
        let self : (d + 4 * i == d + 4 * j) ≡ true = ground arith in
        copy_entries-before n (i + 1) j (update word (d + 4 * i) (word (s + 4 * i))) (omega arith)
          (omega arith)
        ∙ rw self (ap (λ k. word (s + 4 * k)) e)
    | inr two ↦
        copy_entries-copied n (i + 1) j (update word (d + 4 * i) (word (s + 4 * i))) (omega arith)
          (ground arith) (omega arith)
        ∙ rw (other_page d s (4 * i) (4 * j) hd hs other (omega arith) (omega arith)) refl
  ]

  clear_table-before :
      (n i j : ℕ) (word : ℕ → ℕ) → j < i → clear_table n i d word (d + 4 * j) ≡ word (d + 4 * j)
  unfolding clear_table
  clear_table-before zero i j word hj = refl
  clear_table-before (suc n) i j word hj =
      let e : (i == j) ≡ false = ground arith in
      clear_table-before n (i + 1) j (update word (d + 4 * i) 0) (omega arith)
      ∙ rw (two_entries d i j e) refl

  clear_table-zero :
      (n i j : ℕ) (word : ℕ → ℕ) → i ≤ j → j < i + n → clear_table n i d word (d + 4 * j) ≡ 0
  unfolding clear_table
  clear_table-zero zero i j word low high = absurd (omega arith)
  clear_table-zero (suc n) i j word low high = elim (Bool-cases (i == j)) [
    | inl one ↦
        let self : (d + 4 * i == d + 4 * j) ≡ true = ground arith in
        clear_table-before n (i + 1) j (update word (d + 4 * i) 0) (ground arith) ∙ rw self refl
    | inr two ↦
        clear_table-zero n (i + 1) j (update word (d + 4 * i) 0) (ground arith) (omega arith)
  ]

  module _ (m : Mmu) where
    abbrev filled_memory : Mmu
    filled_memory = record m { word = clear_table 960 64 d (copy_entries 64 0 d s m.word) }

    kernel_entry : (j : ℕ) → j < 64 → filled_memory.word (d + 4 * j) ≡ m.word (s + 4 * j)
    kernel_entry j h =
        clear_table-before 960 64 j _ h
        ∙ copy_entries-copied 64 0 j m.word (omega arith) (omega arith) (omega arith)

    user_entry : (j : ℕ) → 64 ≤ j → j < 1024 → filled_memory.word (d + 4 * j) ≡ 0
    user_entry j low high = clear_table-zero 960 64 j _ low (omega arith)

    kernel_word :
        (q x : ℕ)
        → q % 4096 ≡ 0
        → (d == q) ≡ false
        → x < 4096
        → filled_memory.word (q + x) ≡ m.word (q + x)
    kernel_word q x hq e hx =
        clear_table-elsewhere 960 64 d q x _ (omega arith) hd hq e hx
        ∙ copy_entries-elsewhere 64 0 q x m.word (omega arith) hq e hx

    -- Between two different whole pages, fill_new_pgdir makes a directory in which each address
    -- below 0x10000000 whose page table is there, and is not the new directory itself, means what
    -- it means in the old directory, and from 0x10000000 on no address means anything.
    pub fill_new_pgdir-get_physical_address :
        ((a : ℕ)
          → a < 0x10000000
          → (table_at m.word s (pd_index a) == 0) ≡ false
          → (d == table_at m.word s (pd_index a)) ≡ false
          → get_physical_address a d (fill_new_pgdir d s m) ≡ get_physical_address a s m)
        × ((a : ℕ)
            → 0x10000000 ≤ a
            → a < 2 ^ 32
            → get_physical_address a d (fill_new_pgdir d s m) ≡ none)
    unfolding fill_new_pgdir get_physical_address get_ptable_entry
    fill_new_pgdir-get_physical_address = (
      λ a h there away.
          let j : ℕ = pd_index a in
          let same : table_at filled_memory.word d j ≡ table_at m.word s j =
            ap page_of (kernel_entry j (omega arith)) in
          let t : (table_at filled_memory.word d j == 0) ≡ false = rw same there in
          get_physical_address-present a d filled_memory t
          ∙ rw
              (
                same,
                kernel_word (table_at m.word s j) (4 * pt_index a) (omega arith) away (omega arith),
              )
              refl
          ∙ sym (get_physical_address-present a s m there),
      λ a low high.
          let e : filled_memory.word (d + 4 * pd_index a) ≡ 0 =
            user_entry (pd_index a) (omega arith) (omega arith) in
          rw (fill_new_pgdir, get_physical_address, get_ptable_entry, e) refl,
    )
