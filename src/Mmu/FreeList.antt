-- ===== src/Mmu/FreeList.antt =====
-- The list of free pages of kernel/mmu.c as a list of addresses.
use nebulea_os.Base.{
  ℕ, zero, suc, ◌+◌, ◌*◌, ◌%◌, ◌≤◌, ◌<◌, ◌≡◌, refl, ◌∙◌, true, false, some, List, [], ◌∷◌, arith,
  ◌==◌, ltb, update,
}
use nebulea_os.Mmu.Memory.{
  Mmu, memory_start, memory_end, store, link_pages, init_free_list, free_physical_memory_address,
  allocate_physical_memory_address,
}

-- Each free page holds the address of the next one, and the last one null.
abbrev pub Linked : (ℕ → ℕ) → (head : ℕ) → List ℕ → Type 0
Linked word head [] = head ≡ 0
Linked word head (p ∷ ps) = (head ≡ p) × Linked word (word p) ps

-- Another page than these
abbrev pub Apart : ℕ → List ℕ → Type 0
Apart a [] = Unit {0}
Apart a (p ∷ ps) = ((a == p) ≡ false) × Apart a ps

-- Whole pages in the region of free memory, each once
abbrev pub Pages : List ℕ → Type 0
Pages [] = Unit {0}
Pages (p ∷ ps) =
    (p % 4096 ≡ 0) × (memory_start ≤ p) × (p + 4096 ≤ memory_end) × Apart p ps × Pages ps

-- The free pages of the memory are these.
pub record FreePages (m : Mmu) (ps : List ℕ) : Type 0 where
  pub linked : Linked m.word m.head ps
  pub pages : Pages ps

-- A write to another page leaves the links.
pub Linked-update :
    (word : ℕ → ℕ) (a v head : ℕ) (ps : List ℕ)
    → Apart a ps
    → Linked word head ps
    → Linked (update word a v) head ps
Linked-update word a v head [] apart l = l
Linked-update word a v head (p ∷ ps) (other, apart) (at, l) =
    (at, rw other (Linked-update word a v (word p) ps apart l))

-- The first page is taken, and the others stay.
pub allocate-FreePages :
    (m : Mmu) (p : ℕ) (ps : List ℕ)
    → FreePages m (p ∷ ps)
    → (allocate_physical_memory_address m).0 ≡ p
unfolding allocate_physical_memory_address
allocate-FreePages m p ps f = f.linked.0

pub allocate-rest :
    (m : Mmu) (p : ℕ) (ps : List ℕ)
    → FreePages m (p ∷ ps)
    → FreePages (allocate_physical_memory_address m).1 ps
unfolding allocate_physical_memory_address
allocate-rest m p ps f = let (at, l) = f.linked in record { linked = rw at l; pages = f.pages.4 }

-- A page that is not free becomes the first one.
pub free-FreePages :
    (m : Mmu) (p : ℕ) (ps : List ℕ)
    → FreePages m ps
    → Pages (p ∷ ps)
    → FreePages (free_physical_memory_address p m) (p ∷ ps)
unfolding free_physical_memory_address
free-FreePages m p ps f pages =
    let self : (p == p) ≡ true = ground arith in
    record {
      linked = (refl, rw self (Linked-update m.word p m.head m.head ps pages.3 f.linked));
      pages = pages;
    }

pub free-allocate :
    (m : Mmu) (p : ℕ) (ps : List ℕ)
    → FreePages m ps
    → Pages (p ∷ ps)
    → ((allocate_physical_memory_address (free_physical_memory_address p m)).0 ≡ p)
      × FreePages (allocate_physical_memory_address (free_physical_memory_address p m)).1 ps
free-allocate m p ps f pages =
    let freed = free-FreePages m p ps f pages in
    (allocate-FreePages _ p ps freed, allocate-rest _ p ps freed)

-- `n` pages, each 16384 bytes behind the one before
abbrev pub pages_from : (n address : ℕ) → List ℕ
pages_from zero address = []
pages_from (suc n) address = address ∷ pages_from n (address + 4 * 4096)

Apart-below : (n a address : ℕ) → a < address → Apart a (pages_from n address)
Apart-below zero a address h = tt
Apart-below (suc n) a address h = (ground arith, Apart-below n a (address + 4 * 4096) (omega arith))

pages_from-Pages :
    (n address : ℕ)
    → address % 4096 ≡ 0
    → memory_start ≤ address
    → address + 4 * 4096 * n ≤ memory_end
    → Pages (pages_from n address)
pages_from-Pages zero address aligned low high = tt
pages_from-Pages (suc n) address aligned low high = (
  aligned,
  low,
  omega arith,
  Apart-below n address (address + 4 * 4096) (omega arith),
  pages_from-Pages n (address + 4 * 4096) (omega arith) (omega arith) (omega arith),
)

link_pages-Linked :
    (n address : ℕ) (m : Mmu)
    → 0 < address
    → address + 4 * 4096 * suc n ≡ memory_end
    → (w : ℕ → ℕ) × (link_pages (suc n) address m ≡ some (record m { word = w }))
      × Linked w address (pages_from (suc n) address)
      × ((a : ℕ) → a < address → w a ≡ m.word a)
unfolding link_pages
link_pages-Linked zero address m pos e =
    let last : ltb (address + 4 * 4096) memory_end ≡ false = ground arith in
    let self : (address == address) ≡ true = ground arith in
    rw last (
      update m.word address 0,
      refl,
      (refl, rw self refl),
      λ a h. let out : (address == a) ≡ false = ground arith in rw out refl,
    )
link_pages-Linked (suc n) address m pos e =
    let more : ltb (address + 4 * 4096) memory_end ≡ true = ground arith in
    let self : (address == address) ≡ true = ground arith in
    let (w, done, linked, below) =
      link_pages-Linked n (address + 4 * 4096) (store m address (address + 4 * 4096)) (omega arith)
        (omega arith) in
    let here : w address ≡ address + 4 * 4096 = below address (omega arith) ∙ rw self refl in
    (
      w,
      rw more done,
      (refl, rw here linked),
      λ a h. let out : (address == a) ≡ false = ground arith in below a (omega arith) ∙ rw out refl,
    )

FreePages-at :
    (m : Mmu) (w : ℕ → ℕ) (head : ℕ) (ps : List ℕ)
    → m.head ≡ head
    → Linked w head ps
    → Pages ps
    → FreePages (record m { word = w }) ps
FreePages-at m w head ps at linked pages = record { linked = rw at linked; pages = pages }

-- Where the head is at MEMORY_START, the loop of init_free_list ends within 12288 rounds and
-- leaves a list of 12288 free pages, each 16384 bytes behind the one before, whole and in the
-- region.
pub init_free_list-FreePages :
    (m : Mmu)
    → m.head ≡ memory_start
    → (m' : Mmu) × (init_free_list m ≡ some m') × FreePages m' (pages_from 12288 memory_start)
unfolding init_free_list
init_free_list-FreePages m at =
    let (w, done, linked, _) = link_pages-Linked 12287 memory_start m (omega arith) (omega arith) in
    (
      record m { word = w },
      done,
      FreePages-at m w memory_start _ at linked
          (pages_from-Pages 12288 memory_start (omega arith) (omega arith) (omega arith)),
    )
