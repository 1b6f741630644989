-- ===== src/Process/Waitpid.antt =====
-- `waitpid` of kernel/process.c.
use nebulea_os.Base.{
  ℕ, Bool, false, not, Option, none, some, List, [], ◌∷◌, ltb, leb, ◌==◌, ◌&&◌, if◌then◌else◌,
  is_empty,
}
use nebulea_os.Base.Int.{ℤ, pos, negsuc, minus_one}
use nebulea_os.Kernel.Types.{
  State, Head, Resume, Child, Process, nb_proc, is_zombie, user_memory_start,
}
use nebulea_os.Kernel.Exec.{
  on_option, Exec, ◌>>=◌, ◌>>◌, pure, gets, entry, current, get_process, modify_process, Reply,
  switched, reply,
}
use nebulea_os.Kernel.Lists.{queue_add}
use nebulea_os.Process.Scheduler.{set_state, scheduler}
use nebulea_os.Process.Ending.{finish_zombie}

-- The loop over the children: the pid of the first that is a zombie.
unfoldable pub zombie_child : List Child → Exec (Option ℕ)
zombie_child [] = pure none
zombie_child (c ∷ cs) = do
  r ← entry c.pid
  p ← get_process r
  if is_zombie p.state then pure (some c.pid) else zombie_child cs

-- The current process waits until `__awake_father` makes it activable.
unfoldable pub wait_for_child : Resume → Exec Reply
wait_for_child resume = do
  me ← current
  modify_process me (set_state State.waiting_pid)
  queue_add me Head.waiting_pid_list
  scheduler resume
  pure switched

-- `waitpid` with a negative pid: any child.
unfoldable pub wait_any : ℕ → Exec Reply
wait_any retvalp = do
  me ← current
  p ← get_process me
  if is_empty p.children then reply minus_one else do
    found ← zombie_child p.children
    on_option found (wait_for_child (Resume.waiting_any retvalp))
        (λ pid. finish_zombie pid retvalp >> reply (pos pid))

abbrev pub is_child_of : Process → ℕ → Bool
is_child_of p me = elim p.father_pid [ none ↦ false | some f ↦ f == me ]

-- `waitpid` with a pid: that child.
unfoldable pub wait_one : ℕ → ℕ → Exec Reply
wait_one pid retvalp = do
  me ← gets (λ k. k.current_pid)
  found ← gets (λ k. k.process_table pid)
  on_option found (reply minus_one) (λ r. do
    p ← get_process r
    if not (is_child_of p me)
        then reply minus_one
        else if is_zombie p.state
        then finish_zombie pid retvalp >> reply (pos pid)
        else wait_for_child (Resume.waiting_for pid retvalp))

abbrev pub dispatch_wait : ℤ → ℕ → Exec Reply
dispatch_wait (negsuc _) retvalp = wait_any retvalp
dispatch_wait (pos pid) retvalp = if leb nb_proc pid then reply minus_one else wait_one pid retvalp

unfoldable pub waitpid : ℤ → ℕ → Exec Reply
waitpid pid retvalp =
    if not (retvalp == 0) && ltb retvalp user_memory_start
    then reply minus_one
    else dispatch_wait pid retvalp
