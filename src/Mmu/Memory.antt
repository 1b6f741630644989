-- ===== src/Mmu/Memory.antt =====
-- kernel/mmu.c and kernel/mmu.h: the words of memory, the list of free pages, and page tables. The kernel reads page
-- tables at their physical addresses, which it has mapped to themselves, so one memory serves for both.
use Prim.Native.Nat.{bit_or}
use nebulea_os.Base.{
  ℕ, zero, suc, ◌+◌, ◌*◌, ◌/◌, ◌%◌, ◌^◌, Bool, true, false, Option, none, some, ◌==◌, ◌&&◌, not,
  ltb, if◌then◌else◌, update,
}

-- The words of 32 bits at their addresses, `PHYSICAL_MEMORY_HEAD`, and the page directory in cr3
pub record Mmu : Type 0 where
  pub word : ℕ → ℕ
  pub head : ℕ
  pub cr3 : ℕ

abbrev pub memory_start : ℕ
memory_start = 0x04000000

abbrev pub memory_end : ℕ
memory_end = 0x10000000

abbrev pub page_table_rw : ℕ
page_table_rw = 3

abbrev pub page_table_user_rw : ℕ
page_table_user_rw = 7

abbrev pub store : Mmu → (address value : ℕ) → Mmu
store m address value = record m { word = update m.word address value }

-- The loop of `init_free_list`, with the rounds left. `address + 4096` is 4096 integers of 4 bytes further.
unfoldable pub link_pages : (rounds address : ℕ) → Mmu → Option Mmu
link_pages zero address m = none
link_pages (suc n) address m =
    let rest : Option Mmu =
      link_pages n (address + 4 * 4096) (store m address (address + 4 * 4096)) in
    if ltb (address + 4 * 4096) memory_end then rest else some (store m address 0)

-- `init_free_list`, with as many rounds as the region has steps
unfoldable pub init_free_list : Mmu → Option Mmu
init_free_list m = link_pages 12288 memory_start m

unfoldable pub free_physical_memory_address : ℕ → Mmu → Mmu
free_physical_memory_address address m = record (store m address m.head) { head = address }

-- The address, and the memory with the next page at the head
unfoldable pub allocate_physical_memory_address : Mmu → ℕ × Mmu
allocate_physical_memory_address m = (m.head, record m { head = m.word m.head })

-- `x & 0xFFFFF000`
abbrev pub page_of : ℕ → ℕ
page_of x = x / 4096 * 4096

abbrev pub pd_index : ℕ → ℕ
pd_index address = address / 2 ^ 22

abbrev pub pt_index : ℕ → ℕ
pt_index address = address / 4096 % 1024

-- `set_table_permission`
unfoldable pub set_table_permission : (address pgdir flags : ℕ) → Mmu → Mmu
set_table_permission address pgdir flags m =
    let entry : ℕ = pgdir + 4 * pd_index address in
    store m entry (bit_or (page_of (m.word entry)) flags)

-- The loop that clears a page table from entry `i`, with the rounds left
unfoldable pub clear_table : (rounds i ptable : ℕ) → (ℕ → ℕ) → ℕ → ℕ
clear_table zero i ptable word = word
clear_table (suc n) i ptable word = clear_table n (i + 1) ptable (update word (ptable + 4 * i) 0)

-- The end of `get_ptable_entry_from_virtual_address`
abbrev pub permit : (address pgdir : ℕ) (create : Bool) (flags : ℕ) → Mmu → Mmu
permit address pgdir create flags m =
    if create && not (flags == 0) then set_table_permission address pgdir flags m else m

-- A page table for a directory entry that has none; `none` is a panic
unfoldable pub create_table : (address pgdir flags : ℕ) → Mmu → Option (ℕ × Mmu)
create_table address pgdir flags m =
    let (ptable, taken) = allocate_physical_memory_address m in
    if ptable == 0
    then none
    else some (
      ptable,
      store (record taken { word = clear_table 1024 0 ptable taken.word })
          (pgdir + 4 * pd_index address) (bit_or (page_of ptable) flags),
    )

abbrev pub with_entry :
    (address pgdir : ℕ) (create : Bool) (flags : ℕ) → Option (ℕ × Mmu) → Option (ℕ × Mmu)
with_entry address pgdir create flags none = none
with_entry address pgdir create flags (some (ptable, m)) =
    some (ptable + 4 * pt_index address, permit address pgdir create flags m)

-- `get_ptable_entry_from_virtual_address`: the address of the entry, or a panic
unfoldable pub get_ptable_entry :
    (address pgdir : ℕ) (create : Bool) (flags : ℕ) → Mmu → Option (ℕ × Mmu)
get_ptable_entry address pgdir create flags m =
    let ptable : ℕ = page_of (m.word (pgdir + 4 * pd_index address)) in
    with_entry address pgdir create flags (
      if not (ptable == 0)
      then some (ptable, m)
      else if not create
      then none
      else create_table address pgdir flags m)

-- `map_page_from_virtual_address`
abbrev pub enter_page : (entry flags : ℕ) → Mmu → Mmu
enter_page entry flags m =
    let t : Mmu = store m entry (bit_or (page_of m.head) flags) in record t { head = t.word t.head }

unfoldable pub map_page : (pdir address flags : ℕ) → Mmu → Option Mmu
map_page pdir address flags m = elim (get_ptable_entry address pdir true flags m) [
  | none ↦ none
  | some (entry, t) ↦ some (enter_page entry flags t)
]

-- `get_physical_address_from_virtual_address`
unfoldable pub get_physical_address : (address pgdir : ℕ) → Mmu → Option ℕ
get_physical_address address pgdir m = elim (get_ptable_entry address pgdir false 0 m) [
  | none ↦ none
  | some (entry, t) ↦ some ((page_of (t.word entry) + address % 4096) % 2 ^ 32)
]

-- The loop of `virtual_malloc`, with the rounds left and the address of the first page or null
unfoldable pub malloc_pages : (rounds initial : ℕ) → Mmu → Option (ℕ × Mmu)
malloc_pages zero initial m = some (initial, m)
malloc_pages (suc n) initial m =
    let (page, t) = allocate_physical_memory_address m in
    if page == 0
    then some (0, t)
    else elim (get_ptable_entry page t.cr3 true page_table_user_rw t) [
      | none ↦ none
      | some (entry, u) ↦
          malloc_pages n (if initial == 0 then page else initial)
            (store u entry (bit_or (page_of page) page_table_user_rw))
    ]

-- `virtual_malloc`, of a size that is not negative
unfoldable pub virtual_malloc : ℕ → Mmu → Option (ℕ × Mmu)
virtual_malloc size m = malloc_pages ((size + 4095) / 4096) 0 m

-- The loop of `virtual_free`, with the rounds left
unfoldable pub free_pages : (rounds address : ℕ) → Mmu → Option Mmu
free_pages zero address m = some m
free_pages (suc n) address m = elim (get_ptable_entry address m.cr3 false 0 m) [
  | none ↦ none
  | some (entry, t) ↦
      let page : ℕ = page_of (t.word entry) in
      free_pages n ((address + 4096) % 2 ^ 32)
        (store (free_physical_memory_address page t) entry (bit_or (page_of page) page_table_rw))
]

unfoldable pub virtual_free : (address size : ℕ) → Mmu → Option Mmu
virtual_free address size m = free_pages ((size + 4095) / 4096) address m

-- The two loops of `fill_new_pgdir`, with the rounds left
unfoldable pub copy_entries : (rounds i pagedir source : ℕ) → (ℕ → ℕ) → ℕ → ℕ
copy_entries zero i pagedir source word = word
copy_entries (suc n) i pagedir source word =
    copy_entries n (i + 1) pagedir source (update word (pagedir + 4 * i) (word (source + 4 * i)))

unfoldable pub fill_new_pgdir : (pagedir source : ℕ) → Mmu → Mmu
fill_new_pgdir pagedir source m = record m {
  word = clear_table 960 64 pagedir (copy_entries 64 0 pagedir source m.word);
}
