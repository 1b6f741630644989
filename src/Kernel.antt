-- ===== src/Kernel.antt =====
-- The kernel's data (Types), the actions that read and write it (Exec), and the process queues of
-- shared/queue.h in it (Lists), with the rules for invariants (Keeps) and the first of these:
-- links and lists agree (Chained, Frames).
pub mod Types
pub mod Exec
pub mod Lists
pub mod Keeps
pub mod Ends
pub mod Steps
pub mod Chained
pub mod Frames
