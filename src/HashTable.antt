-- ===== src/HashTable.antt =====
-- kernel/hash.c, by its parts.
pub mod Table
pub mod Strings
pub mod Cycle
pub mod Probing
pub mod Counting
pub mod Searching
pub mod Valid
pub mod Writing
pub mod Holding
pub mod Copying
pub mod Resizing
pub mod Slots
pub mod Changes
pub mod Storing
pub mod Maps
pub mod Keys
pub mod Full
pub mod Histories
