-- ===== src/SharedMemory.antt =====
-- kernel/shared_memory.c, by its parts.
pub mod Calls
pub mod Copying
pub mod Sharing
pub mod Quota
