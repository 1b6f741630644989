-- ===== src/Resume.antt =====
-- The tails of the system calls: what the process that a context switch makes current does until
-- it is back in user mode. The answer is what its system call returns, `none` where it made none.
use nebulea_os.Base.{ℕ, ◌-◌, false, Option, none, some, if◌then◌else◌}
use nebulea_os.Base.Int.{ℤ, pos, negsuc, minus_one}
use nebulea_os.Kernel.Types.{Ref, Resume}
use nebulea_os.Kernel.Exec.{
  Exec, ◌>>=◌, ◌>>◌, pure, gets, current, get_process, modify_process, modify_queue, mem_free,
}
use nebulea_os.Process.Ending.{finish_zombie}
use nebulea_os.MessageQueue.Ring.{next_message, step_tail}
use nebulea_os.MessageQueue.Transfer.{store_message}

abbrev pub returns : ℤ → Exec (Option ℤ)
returns v = pure (some v)

-- The end of `psend` by a process that had to wait.
unfoldable pub end_send : Ref → Exec (Option ℤ)
end_send r = do
  p ← get_process r
  if p.skip_message
      then (modify_process r (λ p. record p { skip_message = false }) >> returns minus_one)
      else returns (pos 0)

-- The end of `preceive` by a process that had to wait.
unfoldable pub end_receive : Ref → Ref → ℕ → Exec (Option ℤ)
end_receive r ref message = do
  p ← get_process r
  if p.skip_message
      then (modify_process r (λ p. record p { skip_message = false }) >> returns minus_one)
      else (do
        q ← gets (λ k. k.queue_at ref)
        store_message message (next_message q)
        modify_queue ref (λ q. let q' = step_tail q in record q' { nb_msg = q.nb_msg - 1 })
        returns (pos 0))

-- The end of `wait` by a process that had to wait.
unfoldable pub end_wait : Ref → Exec (Option ℤ)
end_wait ref = do
  s ← gets (λ k. k.semaphore_at ref)
  if s.was_deleted
      then (mem_free ref >> returns (negsuc 2))
      else if s.was_reset
      then returns (negsuc 3)
      else returns (pos 0)

-- The end of `waitpid`, for any child.
unfoldable pub end_wait_any : ℕ → Exec (Option ℤ)
end_wait_any retvalp = do
  me ← current
  p ← get_process me
  finish_zombie p.waited_pid retvalp
  returns (pos p.waited_pid)

unfoldable pub resume_at : Resume → Exec (Option ℤ)
resume_at Resume.user_start = pure none
resume_at Resume.preempted = pure none
resume_at Resume.ended = pure none
resume_at (Resume.returning v) = returns v
resume_at (Resume.started r) = do
  modify_process r (λ p. record p { skip_message = false })
  p ← get_process r
  returns (pos p.pid)
resume_at (Resume.sending r) = end_send r
resume_at (Resume.receiving r q message) = end_receive r q message
resume_at (Resume.semaphore_waiting s) = end_wait s
resume_at (Resume.waiting_any retvalp) = end_wait_any retvalp
resume_at (Resume.waiting_for pid retvalp) = finish_zombie pid retvalp >> returns (pos pid)

-- What the process that is current does first.
unfoldable pub resume_current : Exec (Option ℤ)
resume_current = do me ← current; p ← get_process me; resume_at p.resume
