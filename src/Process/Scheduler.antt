-- ===== src/Process/Scheduler.antt =====
-- `__scheduler` of kernel/process.c and what it calls.
pub mod Freeing
pub mod Electing
pub mod Waking
pub mod Calling
use nebulea_os.Base.{
  ℕ, zero, suc, ◌+◌, Bool, Option, none, some, ◌&&◌, leb, ◌==◌, if◌then◌else◌, length, find,
  is_empty,
}
use nebulea_os.Kernel.Types.{Ref, State, Head, Resume, Process, Kernel, nb_proc, is_asleep}
use nebulea_os.Kernel.Exec.{
  set_cr3, set_current_pid, current, on_option, Exec, ◌>>=◌, ◌>>◌, pure, stop, panicked, gets,
  non_null, get_process, modify_process, mem_free,
}
use nebulea_os.Kernel.Lists.{queue_add, queue_del, queue_out, list_of}
use nebulea_os.Queue.{top}

abbrev pub set_state : State → Process → Process
set_state s p = record p { state = s }

-- `__free_process`; the stack and the name are freed with the structure.
unfoldable pub free_process : Ref → Exec (Unit {0})
free_process r = do
  p ← get_process r
  pid ← gets (λ k. k.current_pid)
  if p.pid == pid then stop panicked else mem_free r

-- The first element of a list of processes that has the given pid.
abbrev pub with_pid : Kernel → ℕ → Ref → Bool
with_pid k pid r = (k.process_at r).pid == pid

abbrev pub find_pid : Head → ℕ → Exec (Option Ref)
find_pid h pid = gets (λ k. find (with_pid k pid) (k.lists h))

-- `while (!queue_empty(&finished_list))`, with as many rounds as the list has elements.
unfoldable pub free_all : ℕ → Exec (Unit {0})
free_all zero = pure tt
free_all (suc n) = do
  r ← queue_out Head.finished_list
  on_option r (pure tt) (λ p. free_process p >> free_all n)

abbrev pub free_finished : Exec (Unit {0})
free_finished = do l ← list_of Head.finished_list; free_all (length l)

unfoldable pub free_finished_process : Exec (Unit {0})
free_finished_process = do
  pid ← gets (λ k. k.current_pid)
  found ← find_pid Head.finished_list pid
  on_option found (free_finished)
      (λ r. queue_del r >> free_finished >> queue_add r Head.finished_list)

-- One round of `__wakeup_process`.
unfoldable pub wakeup : Option Ref → Exec (Unit {0})
wakeup none = pure tt
wakeup (some r) = do
  p ← get_process r
  now ← gets (λ k. k.time_count)
  if is_asleep p.state && leb p.wakeup_date now
      then modify_process r (set_state State.activable) >> queue_add r Head.activable_list
      else pure tt

unfoldable pub wakeup_from : (rounds i : ℕ) → Exec (Unit {0})
wakeup_from zero i = pure tt
wakeup_from (suc n) i = do r ← gets (λ k. k.process_table i); wakeup r; wakeup_from n (i + 1)

unfoldable pub wakeup_process : Exec (Unit {0})
wakeup_process = wakeup_from nb_proc 0

-- `virtual_ctx_sw`: what the old process has to do when it is switched back to is saved in it,
-- and the address space becomes that of the new one.
unfoldable pub virtual_ctx_sw : (old new : Ref) → Resume → Exec (Unit {0})
virtual_ctx_sw old new r = do
  p ← get_process new
  set_cr3 p.cr3
  modify_process old (λ p. record p { resume = r })

-- The process whose context is saved: the finished one, if there is one.
abbrev pub old_process : Exec Ref
old_process = do
  done ← list_of Head.finished_list
  me ← gets (λ k. k.process_table k.current_pid)
  non_null (if is_empty done then me else top done)

-- The choice of a process and the switch to it, behind the two calls.
unfoldable pub elect : Resume → Exec (Unit {0})
elect r = do
  chosen ← queue_out Head.activable_list
  new ← non_null chosen
  modify_process new (set_state State.elected)
  old ← old_process
  p ← get_process new
  set_current_pid p.pid
  virtual_ctx_sw old new r

-- `__scheduler`, called at a place from where its caller goes on as `r` says.
unfoldable pub scheduler : Resume → Exec (Unit {0})
scheduler r = do free_finished_process; wakeup_process; elect r

-- The current process becomes activable and the scheduler is called: the end of many calls.
unfoldable pub yield_cpu : Resume → Exec (Unit {0})
yield_cpu r = do
  c ← current
  modify_process c (set_state State.activable)
  queue_add c Head.activable_list
  scheduler r
