-- ===== src/Process.antt =====
-- kernel/process.c, by its parts.
pub mod Table
pub mod Scheduler
pub mod Ending
pub mod Priority
pub mod Waitpid
pub mod Start
pub mod Chains
pub mod Children
pub mod Reaping
pub mod Orphans
pub mod Fathers
pub mod Killing
