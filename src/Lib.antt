-- ===== src/Lib.antt =====
-- NebuleaOS: a model of the core of the kernel, in kernel/ and shared/, and of how user programs
-- call it, in user/lib/.
--
-- The kernel keeps up to 30 processes, 10 message queues and 10000 semaphores in tables. A process
-- that may run, that waits or that has finished is chained by its field `link` into one of the
-- lists of kernel/process.c, or into that of a message queue or a semaphore, all of them priority
-- queues of shared/queue.h. System calls (kernel/syscall_kernel.c) and the clock (kernel/time.c)
-- act on these, and end in `__scheduler` where the current process yields or blocks.
--
-- The parts:
--   * Queue: shared/queue.h on the list of the elements, from `head->next` to `head->prev`.
--     Order, Counts, Same and Fifo are about these lists, Fifo about the order of arrivals.
--     Queue/Links has the macros on the pointers:
--     Chain says when these are the ring of a list, Adding, Removing, Leaving and Walking are
--     about what they do then.
--   * Kernel: Types has the structures and the global variables, Exec the code as functions from
--     a state to an outcome, a value and the next state or the fault that stops the machine.
--     Lists has the queue macros on processes, with their assertions. Keeps, Ends and Steps are
--     for proofs; Chained says how links and lists agree.
--   * Process: kernel/process.c. Table, Scheduler, Ending (`exit`, `kill`), Priority, Waitpid
--     and Start name the functions as the source does, without leading underscores. Children and
--     Reaping are about a zombie whose father waits, Orphans, Fathers and Killing about the family of a
--     process that ends.
--   * MessageQueue: kernel/message_queue.c. Ring is the circular buffer, Transfer `psend` and
--     `preceive`, Table and Count the rest. Delivery, Rendezvous and Refilling are about a message on
--     its way.
--   * Semaphore: kernel/semaphore.c. Table has `screate`, `sdelete`, `sreset` and `scount`,
--     Counting the others. Balance, Passing, Blocking and Deletion are about these.
--   * Clock: kernel/time.c, and `wait_clock`. Day is about the time of day, Preemption about
--     `tic_PIT`.
--   * Resume: what a process does behind the context switch in which it was suspended.
--   * Syscall, Reachable: the dispatch, one event of the machine, and the states so reached.
--   * User: user/lib/syscall_user.c, the other side of the dispatch. Dispatch is about what a
--     call reaches; Break is user/lib/sbrk.c.
--   * HashTable: kernel/hash.c. Table and Strings have its functions; Cycle and Probing are
--     about the order of the search, Searching, Valid and Full about its end, Counting, Writing,
--     Copying, Slots, Changes, Resizing and Storing about changes, Holding, Maps, Histories and
--     Keys about what the table holds.
--   * Mmu: kernel/mmu.c. Memory and Regions have its functions; FreeList is about the free
--     pages, Paging, Creating, Entries, Filling, Mapping, Region, Allocating and Freeing about
--     page tables, Spaces about a new directory.
--   * SharedMemory: kernel/shared_memory.c, in Calls, on the hash table and the page tables.
--     Copying and Sharing are about a page that several processes use, Quota about the count of
--     pages.
--   * Screen: kernel/screen.c, in Cursor. Scrolling and Printing are about what the screen
--     shows.
--   * Info: kernel/info.c. Lines, Texts, Tables and Shown are about what `sys_info` shows,
--     Titles about the titles of its lines.
--   * Tests: a small machine, a hash table, a memory, a screen, a ring of links and a family of
--     processes, with the theorems applied to them.
--
-- Objects live in stores under their addresses, so two pointers may name one object. A pointer
-- that is null is `none`; to follow it is a fault, as are a failed `assert` and a `panic`, and a
-- fault stops the model, where the handler of page faults in kernel/interruptions.c ends the
-- process by `exit(0)` and the kernel goes on. A call
-- that switches the context answers `switched`; the process that is then current goes on where its
-- field `resume` says. An `int` is an integer, and the count of a semaphore, a `short`, is cut to
-- 16 bits at each step; the tick counter is a word of 32 bits. The loops that take processes out
-- of a list run as many rounds as it has elements, and each round takes one out; the loops over
-- tables run over their length. The search of the hash table runs as many rounds as it has slots
-- and 7 more: 7 rounds use up the 32 bits of `perturb`, and then the index meets every slot. The
-- loop of `init_free_list` runs 12288 rounds, the steps of 16 KB in the region. The loops over the
-- links of a queue take the rounds they are given; more rounds than the list has links are enough.
--
-- What the allocator, the linker and the C library give is an argument: the address of a new
-- object, what a new buffer holds, the names of the programs, a page directory, `strcmp`,
-- `strcpy`, `sprintf` and `memmove`. Whether a hash table gets memory is a Boolean. The memory of
-- mmu.c is a function from addresses to words, also at 0, so an empty list of free pages is read
-- there and is no fault; the theorems on mmu.c are about lists that hold enough pages. The kernel
-- reads page tables at their physical addresses. Of the stacks that `start` makes, the argument of
-- the program is kept, in `arg`. Not modelled: the rest of the stacks and the mappings of `start`, `hash_destroy`, what mmu.c prints,
-- the keyboard, a copy of other projects' code, and assembly but for the registers in which a user
-- program hands over its arguments.
pub mod Base
pub mod Queue
pub mod Kernel
pub mod Process
pub mod MessageQueue
pub mod Semaphore
pub mod Clock
pub mod Resume
pub mod Syscall
pub mod User
pub mod Reachable
pub mod HashTable
pub mod Screen
pub mod Info
pub mod Mmu
pub mod SharedMemory
pub mod Tests
