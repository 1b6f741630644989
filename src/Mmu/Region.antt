-- ===== src/Mmu/Region.antt =====
-- `map_region` of kernel/mmu.c over a region whose page tables are there.
use nebulea_os.Base.{
  ℕ, zero, suc, ◌+◌, ◌*◌, ◌/◌, ◌%◌, ◌^◌, ◌≤◌, ◌<◌, ◌≡◌, refl, ◌∙◌, true, false, Option, some, List,
  [], ◌∷◌, ◌++◌, arith, ◌==◌, ◌||◌, ltb, leb, length, get_or,
}
use nebulea_os.Mmu.Memory.{Mmu, pd_index, map_page, get_physical_address}
use nebulea_os.Mmu.Paging.{table_at, Directory}
use nebulea_os.Mmu.Mapping.{Mapped, map_page-Mapped}
use nebulea_os.Mmu.Regions.{map_pages, map_region}

-- The page tables of the region from `start` on are there.
abbrev pub HasTables : Mmu → (pgdir start pages : ℕ) → Type 0
HasTables m pgdir start pages =
    (i : ℕ) → i < pages → (table_at m.word pgdir (pd_index (start + 4096 * i)) == 0) ≡ false

-- Each page of the region means its page in the list, every other page whose page table was there means what it meant, and the
-- directory is in order with the other free pages.
pub record MappedRegion (m m' : Mmu) (pgdir start : ℕ) (qs ps : List ℕ) : Type 0 where
  pub meaning :
      (i : ℕ)
      → i < length qs
      → get_physical_address (start + 4096 * i) pgdir m' ≡ some (get_or qs i 0 + start % 4096)
  pub others :
      (a : ℕ)
      → a < 2 ^ 32
      → (ltb (a / 4096) (start / 4096) || leb (start / 4096 + length qs) (a / 4096)) ≡ true
      → (table_at m.word pgdir (pd_index a) == 0) ≡ false
      → get_physical_address a pgdir m' ≡ get_physical_address a pgdir m
  pub directory : Directory m' pgdir ps

first_table :
    (m : Mmu) (pgdir start n : ℕ)
    → HasTables m pgdir start (suc n)
    → (table_at m.word pgdir (pd_index start) == 0) ≡ false
first_table m pgdir start n there =
    let same : start + 4096 * 0 ≡ start = omega arith in (rw same at (there 0 (omega arith)))

module _ (m m1 m2 : Mmu) (pgdir start q : ℕ) (qs ps : List ℕ)
    (low : start + 4096 * suc (length qs) ≤ 2 ^ 32)
    (there : HasTables m pgdir start (suc (length qs)))
    (mapped : Mapped m m1 pgdir start q (qs ++ ps)) where
  -- The page tables are there for the rest of the region.
  rest-HasTables : HasTables m1 pgdir (start + 4096) (length qs)
  rest-HasTables i h =
      let next : start + 4096 + 4096 * i ≡ start + 4096 * suc i = omega arith in
      let before = there (suc i) (omega arith) in
      let kept = mapped.tables (pd_index (start + 4096 * suc i)) (omega arith) before in
      rw (next, kept) before

  MappedRegion-cons :
      MappedRegion m1 m2 pgdir (start + 4096) qs ps → MappedRegion m m2 pgdir start (q ∷ qs) ps
  MappedRegion-cons rest = record { meaning = meaning; others = others; directory = rest.directory }
    where
      offset : (start + 4096) % 4096 ≡ start % 4096
      offset = omega arith

      meaning :
          (i : ℕ)
          → i < suc (length qs)
          → get_physical_address (start + 4096 * i) pgdir m2
            ≡ some (get_or (q ∷ qs) i 0 + start % 4096)
      meaning zero h =
          let same : start + 4096 * 0 ≡ start = omega arith in
          let kept =
            mapped.tables (pd_index start) (omega arith)
              (first_table m pgdir start (length qs) there) in
          rw same (
            rest.others start (omega arith) (ground arith)
              (rw kept (first_table m pgdir start (length qs) there))
            ∙ mapped.meaning)
      meaning (suc i) h =
          let next : start + 4096 * suc i ≡ start + 4096 + 4096 * i = omega arith in
          rw (next, ← offset) (rest.meaning i (omega arith))

      others :
          (a : ℕ)
          → a < 2 ^ 32
          → (ltb (a / 4096) (start / 4096) || leb (start / 4096 + suc (length qs)) (a / 4096))
            ≡ true
          → (table_at m.word pgdir (pd_index a) == 0) ≡ false
          → get_physical_address a pgdir m2 ≡ get_physical_address a pgdir m
      others a ha out t =
          let page : (start + 4096) / 4096 ≡ start / 4096 + 1 = omega arith in
          let away : (a / 4096 == start / 4096) ≡ false = ground (arith, out) in
          let kept = mapped.tables (pd_index a) (omega arith) t in
          rest.others a ha (rw page (ground (arith, out))) (rw kept t) ∙ mapped.others a ha away t

map_pages-step :
    (n total pgdir address f start : ℕ) (m m1 : Mmu) (o : Option Mmu)
    → (address + total) % 2 ^ 32 ≡ start
    → map_page pgdir start f m ≡ some m1
    → map_pages n (total + 4096) pgdir address f m1 ≡ o
    → map_pages (suc n) total pgdir address f m ≡ o
unfolding map_pages
map_pages-step n total pgdir address f start m m1 o word done rest = rw (map_pages, word, done) rest

map_pages-MappedRegion :
    (pgdir f total address start : ℕ) (m : Mmu) (qs ps : List ℕ)
    → f < 4096
    → (f == 0) ≡ false
    → start ≡ address + total
    → start + 4096 * length qs ≤ 2 ^ 32
    → Directory m pgdir (qs ++ ps)
    → HasTables m pgdir start (length qs)
    → (m' : Mmu) × (map_pages (length qs) total pgdir address f m ≡ some m')
      × MappedRegion m m' pgdir start qs ps
unfolding map_pages
map_pages-MappedRegion pgdir f total address start m [] ps small hf at hb d there = (
  m,
  refl,
  record { meaning = λ i h. absurd (omega arith); others = λ a ha out t. refl; directory = d },
)
map_pages-MappedRegion pgdir f total address start m (q ∷ qs) ps small hf at hb d there =
    let low : start < 2 ^ 32 = omega arith in
    let word : (address + total) % 2 ^ 32 ≡ start = omega arith in
    let (m1, done, mapped) =
      map_page-Mapped pgdir f m start q (qs ++ ps) small hf low d
        (first_table m pgdir start (length qs) there) in
    let (m2, rest, region) =
      map_pages-MappedRegion pgdir f (total + 4096) address (start + 4096) m1 qs ps small hf
        (omega arith) (omega arith) mapped.directory
        (rest-HasTables m m1 m1 pgdir start q qs ps hb there mapped) in
    (
      m2,
      map_pages-step (length qs) total pgdir address f start m m1 (some m2) word done rest,
      MappedRegion-cons m m1 m2 pgdir start q qs ps hb there mapped region,
    )

-- Where the directory and its page tables are whole pages, each once and none of them free, for
-- flags that are not 0 and below 4096 and a region below 2 ^ 32 whose page tables are there,
-- map_region with a size maps the page of each multiple of 4096 up to the size to the first free
-- pages in their order, one more page than the size has whole pages. Every other address whose
-- page table was there means what it meant, and the directory stays in order with the other free
-- pages.
pub map_region-MappedRegion :
    (pgdir f address size : ℕ) (m : Mmu) (qs ps : List ℕ)
    → f < 4096
    → (f == 0) ≡ false
    → length qs ≡ size / 4096 + 1
    → address + 4096 * length qs ≤ 2 ^ 32
    → Directory m pgdir (qs ++ ps)
    → HasTables m pgdir address (length qs)
    → (m' : Mmu) × (map_region pgdir address f size m ≡ some m')
      × MappedRegion m m' pgdir address qs ps
unfolding map_region
map_region-MappedRegion pgdir f address size m qs ps small hf count hb d there =
    rw (← count)
      (map_pages-MappedRegion pgdir f 0 address address m qs ps small hf (omega arith) hb d there)
