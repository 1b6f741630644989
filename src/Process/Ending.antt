-- ===== src/Process/Ending.antt =====
-- How a process ends: `exit`, `kill` and `__process_end` of kernel/process.c.
use nebulea_os.Base.{
  ℕ, Bool, true, false, Option, none, some, List, [], ◌∷◌, ltb, ◌==◌, ◌||◌, if◌then◌else◌,
}
use nebulea_os.Base.Int.{ℤ, pos, negsuc, minus_one, ◌+ℤ◌, to_short}
use nebulea_os.Kernel.Types.{
  Ref, State, Head, Resume, Child, is_zombie, is_in_sem, user_memory_start,
}
use nebulea_os.Kernel.Exec.{
  on_option, Exec, ◌>>=◌, ◌>>◌, pure, stop, panicked, gets, non_null, entry, get_process,
  modify_process, modify_semaphore, set_entry, store_int, Reply, switched, reply,
}
use nebulea_os.Kernel.Lists.{queue_add, queue_del, queue_initialized}
use nebulea_os.Process.Table.{valid_process}
use nebulea_os.Process.Scheduler.{set_state, find_pid, scheduler}

-- The list without the first child of that pid: `queue_del` of what the loop found.
unfoldable pub without_child : ℕ → List Child → List Child
without_child pid [] = []
without_child pid (c ∷ cs) = if c.pid == pid then cs else c ∷ without_child pid cs

-- `__remove_from_children`
unfoldable pub remove_from_children : ℕ → Option ℕ → Exec (Unit {0})
remove_from_children pid none = pure tt
remove_from_children pid (some father_pid) = do
  father ← entry father_pid
  modify_process father (λ p. record p { children = without_child pid p.children })

-- `*retvalp = process_table[pid]->retval`, if the user gave an address, and if that is one of user
-- memory.
unfoldable pub store_retval : ℕ → ℕ → Exec (Unit {0})
store_retval retvalp pid =
    if retvalp == 0
    then pure tt
    else if ltb retvalp user_memory_start
    then stop panicked
    else (do r ← entry pid; p ← get_process r; store_int retvalp p.retval)

-- `__finish_fatherless`: the process will be freed, and its pid is.
unfoldable pub finish_fatherless : ℕ → Exec (Unit {0})
finish_fatherless pid = do
  r ← entry pid
  modify_process r (set_state State.finished)
  queue_add r Head.finished_list
  set_entry pid none

-- `__finish_zombie`
unfoldable pub finish_zombie : ℕ → ℕ → Exec (Unit {0})
finish_zombie pid retvalp = do
  store_retval retvalp pid
  me ← gets (λ k. k.current_pid)
  remove_from_children pid (some me)
  finish_fatherless pid

-- `__awake_father`: whatever child the father waits for, the end of this one wakes it.
unfoldable pub awake_father : ℕ → Exec (Unit {0})
awake_father child_pid = do
  c ← entry child_pid
  child ← get_process c
  waiting ← on_option child.father_pid (pure none) (λ f. find_pid Head.waiting_pid_list f)
  on_option waiting (pure tt) (λ r. do
    queue_del r
    modify_process r (λ p. record p { waited_pid = child_pid; state = State.activable })
    queue_add r Head.activable_list)

-- The loop over the children of a process that ends.
unfoldable pub orphan : List Child → Exec (Unit {0})
orphan [] = pure tt
orphan (c ∷ cs) = do
  r ← entry c.pid
  modify_process r (λ p. record p { father_pid = none })
  p ← get_process r
  if is_zombie p.state then finish_fatherless c.pid else pure tt
  orphan cs

-- `__process_end` up to the test whether the current process ended.
unfoldable pub retire : ℕ → Exec (Unit {0})
retire pid = do
  r ← entry pid
  p ← get_process r
  on_option p.father_pid (finish_fatherless pid)
      (λ _. modify_process r (set_state State.zombie) >> awake_father pid)
  p ← get_process r
  orphan p.children

-- `__process_end`; the answer says whether the context was switched.
unfoldable pub process_end : ℕ → Resume → Exec Bool
process_end pid resume = do
  retire pid
  me ← gets (λ k. k.current_pid)
  if pid == me then (scheduler resume >> pure true) else pure false

unfoldable pub exit : ℤ → Exec Reply
exit retval = do
  me ← gets (λ k. k.current_pid)
  r ← entry me
  modify_process r (λ p. record p { retval = retval })
  gone ← process_end me Resume.ended
  pure switched

-- What `kill` does to a process that is in a queue.
unfoldable pub withdraw : Ref → Exec (Unit {0})
withdraw r = do
  p ← get_process r
  if queue_initialized p.link then pure tt else do
    queue_del r
    if is_in_sem p.state
        then (do
          table ← gets (λ k. k.semaphore_table)
          s ← non_null (table p.waited_sem)
          modify_semaphore s (λ s. record s { count = to_short (s.count +ℤ pos 1) }))
        else pure tt

-- `kill` of a process that may be killed.
unfoldable pub kill_process : ℕ → Ref → Exec Reply
kill_process pid r = do
  withdraw r
  modify_process r (λ p. record p { retval = pos 0 })
  gone ← process_end pid (Resume.returning (pos 0))
  if gone then pure switched else reply (pos 0)

unfoldable pub kill : ℤ → Exec Reply
kill (negsuc _) = reply minus_one
kill (pos pid) = do
  found ← gets (valid_process (pos pid))
  on_option found (reply minus_one) (λ r. do
    p ← get_process r
    if pid == 0 || is_zombie p.state then reply minus_one else kill_process pid r)
