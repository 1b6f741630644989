-- ===== src/Mmu.antt =====
-- kernel/mmu.c, by its parts.
pub mod Memory
pub mod FreeList
pub mod Paging
pub mod Creating
pub mod Entries
pub mod Mapping
pub mod Filling
pub mod Allocating
pub mod Spaces
pub mod Regions
pub mod Region
pub mod Freeing
