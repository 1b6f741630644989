-- ===== src/Semaphore.antt =====
-- kernel/semaphore.c, by its parts.
pub mod Table
pub mod Counting
pub mod Chains
pub mod Deletion
pub mod Passing
pub mod Blocking
pub mod Balance
