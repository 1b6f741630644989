-- ===== src/Semaphore/Table.antt =====
-- The table of semaphores of kernel/semaphore.c: `screate`, `sdelete`, `sreset`, `scount`.
use nebulea_os.Base.{
  ℕ, zero, suc, ◌+◌, ◌-◌, ◌%◌, true, false, Option, none, some, ltb, ◌==◌, if◌then◌else◌, length,
  [],
}
use nebulea_os.Base.Int.{ℤ, pos, negsuc, minus_one, ltb_ℤ, pos_part}
use nebulea_os.Kernel.Types.{Ref, State, Head, Resume, Semaphore, Kernel, nb_semaphore}
use nebulea_os.Kernel.Exec.{
  set_semaphore_entry, on_option, Exec, ◌>>=◌, ◌>>◌, pure, gets, non_null, modify_process,
  modify_semaphore, mem_free, Reply, switched, reply,
}
use nebulea_os.Kernel.Lists.{list_of, set_list, queue_add, queue_out}
use nebulea_os.Process.Table.{first_free}
use nebulea_os.Process.Scheduler.{set_state, yield_cpu}

-- `__get_free_sem`; `none` is the source's -1.
unfoldable pub get_free_sem : Kernel → Option ℕ
get_free_sem k = first_free k.semaphore_table nb_semaphore 0

-- `sem < 0 || sem > NBSEMAPHORE - 1 || !semaphore_table[sem]`: the semaphore, if it is valid.
unfoldable pub find_semaphore : ℤ → Kernel → Option Ref
find_semaphore (negsuc _) k = none
find_semaphore (pos sem) k = if ltb (nb_semaphore - 1) sem then none else k.semaphore_table sem

-- `was_deleted` is not written: memory from the allocator is zero.
abbrev pub new_semaphore : ℕ → ℤ → Semaphore
new_semaphore sid count = record {
  sid = sid;
  count = count;
  was_reset = false;
  was_deleted = false;
}

-- `screate`, given the address of the new structure.
unfoldable pub screate : Ref → ℤ → Exec Reply
screate new count = do
  slot ← gets get_free_sem
  on_option slot (reply minus_one) (λ sid. if ltb_ℤ count (pos 0) then reply minus_one else (do
    set_semaphore_entry sid (some new)
    modify_semaphore new (λ _. new_semaphore sid count)
    set_list (Head.semaphore_waiters new) []
    reply (pos sid)))

-- The process that leaves the list of a semaphore becomes activable.
unfoldable pub wake_waiter : Head → Exec (Unit {0})
wake_waiter h = do
  out ← queue_out h
  p ← non_null out
  modify_process p (set_state State.activable)
  queue_add p Head.activable_list

-- `while (!queue_empty(&...waiting_process))`, with as many rounds as the list has elements.
unfoldable pub wake_all : Head → ℕ → Exec (Unit {0})
wake_all h zero = pure tt
wake_all h (suc n) = do wake_waiter h; wake_all h n

abbrev pub wake_waiters : Head → Exec (Unit {0})
wake_waiters h = do l ← list_of h; wake_all h (length l)

-- `__nb_waiting_proc2`, which follows `semaphore_table[sem]`.
unfoldable pub nb_waiting_proc2 : ℕ → Exec ℕ
nb_waiting_proc2 sem = do
  table ← gets (λ k. k.semaphore_table)
  s ← non_null (table sem)
  gets (λ k. length (k.lists (Head.semaphore_waiters s)))

unfoldable pub sdelete : ℤ → Exec Reply
sdelete sem = do
  found ← gets (find_semaphore sem)
  on_option found (reply minus_one) (λ s. do
    wake_waiters (Head.semaphore_waiters s)
    set_semaphore_entry (pos_part sem) none
    n ← nb_waiting_proc2 (pos_part sem)
    if n == 0 then mem_free s else modify_semaphore s (λ s. record s { was_deleted = true })
    yield_cpu (Resume.returning (pos 0))
    pure switched)

-- `sreset`, with a count that is not negative.
unfoldable pub sreset : ℤ → ℤ → Exec Reply
sreset sem count = do
  found ← gets (find_semaphore sem)
  on_option found (reply minus_one) (λ s. if ltb_ℤ count (pos 0) then reply minus_one else do
    wake_waiters (Head.semaphore_waiters s)
    modify_semaphore s (λ s. record s { count = count; was_reset = true })
    yield_cpu (Resume.returning (pos 0))
    pure switched)

-- The low 16 bits of a `short`: `(int)count & 0xffff`.
abbrev pub bits16 : ℤ → ℕ
bits16 (pos n) = n % 65536
bits16 (negsuc n) = (65536 - (n + 1) % 65536) % 65536

unfoldable pub scount : ℤ → Exec Reply
scount sem = do
  found ← gets (find_semaphore sem)
  on_option found (reply minus_one)
      (λ ref. do s ← gets (λ k. k.semaphore_at ref); reply (pos (bits16 s.count)))
