-- ===== src/Process/Chains.antt =====
-- The functions of kernel/process.c, and the agreement of links and lists.
pub mod Scheduling
pub mod Endings
pub mod Others
