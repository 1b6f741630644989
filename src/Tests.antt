-- ===== src/Tests.antt =====
-- A small machine, a hash table, a memory, a screen, a queue of links and a family of processes, and the theorems at work on them.
pub mod Machine
pub mod Scheduling
pub mod Objects
mod Refill
pub mod Meeting
mod Hashing
mod Paging
mod Display
mod Sharing
mod Links
mod Families
mod Tables
mod Calls
