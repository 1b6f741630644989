-- ===== src/Process/Priority.antt =====
-- `getpid`, `getprio` and `chprio` of kernel/process.c, and `__get_queue`.
use nebulea_os.Base.{
  ℕ, zero, suc, ◌+◌, Bool, false, Option, none, some, ◌==◌, ◌||◌, if◌then◌else◌, find,
}
use nebulea_os.Base.Int.{ℤ, pos, negsuc, minus_one, ltb_ℤ, leb_ℤ}
use nebulea_os.Kernel.Types.{
  Ref, State, Head, Resume, Process, Kernel, is_zombie, is_finished, max_prio, nb_queue,
  nb_semaphore,
}
use nebulea_os.Kernel.Exec.{
  on_option, Exec, ◌>>=◌, ◌>>◌, pure, stop, assertion_failed, gets, get_process, modify_process,
  Reply, switched, reply,
}
use nebulea_os.Kernel.Lists.{queue_add, queue_del, queue_initialized}
use nebulea_os.Process.Table.{valid_process}
use nebulea_os.Process.Scheduler.{with_pid, yield_cpu}

unfoldable pub getpid : Exec Reply
getpid = do pid ← gets (λ k. k.current_pid); reply (pos pid)

unfoldable pub getprio : ℤ → Exec Reply
getprio pid = do
  found ← gets (valid_process pid)
  on_option found (reply minus_one)
      (λ r. do p ← get_process r; if is_zombie p.state then reply minus_one else reply p.priority)

-- The loops of `__get_queue`: the first object of a table in whose list a process has the pid.
unfoldable pub find_head :
    (ℕ → Option Ref) → (Ref → Head) → ℕ → (rounds i : ℕ) → Kernel → Option Head
find_head table head pid zero i k = none
find_head table head pid (suc n) i k = elim (table i) [
  | none ↦ find_head table head pid n (i + 1) k
  | some q ↦ elim (find (with_pid k pid) (k.lists (head q))) [
    | none ↦ find_head table head pid n (i + 1) k
    | some _ ↦ some (head q)
  ]
]

-- `__get_queue`, a switch over the state.
unfoldable pub get_queue_of : State → ℕ → Kernel → Option Head
get_queue_of State.activable pid k = some Head.activable_list
get_queue_of State.waiting_pid pid k = some Head.waiting_pid_list
get_queue_of State.in_msgqueue pid k = find_head k.queue_table Head.queue_waiters pid nb_queue 0 k
get_queue_of State.in_sem pid k =
    find_head k.semaphore_table Head.semaphore_waiters pid nb_semaphore 0 k
get_queue_of _ pid k = none

abbrev pub with_priority : ℤ → Process → Process
with_priority newprio p = record p { priority = newprio }

-- A process in a queue is taken out, changed and put back.
unfoldable pub requeue : Ref → ℤ → Head → Exec (Unit {0})
requeue r newprio h = do queue_del r; modify_process r (with_priority newprio); queue_add r h

unfoldable pub set_priority : Ref → ℤ → Exec (Unit {0})
set_priority r newprio = do
  p ← get_process r
  if queue_initialized p.link then modify_process r (with_priority newprio) else (do
    queue ← gets (get_queue_of p.state p.pid)
    on_option queue (stop assertion_failed) (requeue r newprio))

-- The tests of `chprio` on the new priority and the pid.
abbrev pub is_zero : ℤ → Bool
is_zero (pos n) = n == 0
is_zero (negsuc n) = false

abbrev pub refuses : ℤ → ℤ → Bool
refuses pid newprio = ltb_ℤ (pos max_prio) newprio || leb_ℤ newprio (pos 0) || is_zero pid

unfoldable pub chprio : ℤ → ℤ → Exec Reply
chprio pid newprio = do
  found ← gets (valid_process pid)
  on_option found (reply minus_one) (λ r. do
    p ← get_process r
    if refuses pid newprio || is_zombie p.state || is_finished p.state
        then reply minus_one
        else (do set_priority r newprio; yield_cpu (Resume.returning p.priority); pure switched))
