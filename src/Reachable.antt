-- ===== src/Reachable.antt =====
-- The states that the kernel reaches by system calls and ticks of the clock.
use nebulea_os.Base.{◌≡◌, Bool, true, false, [], none}
use nebulea_os.Kernel.Types.{Ref, Head, Kernel}
use nebulea_os.Kernel.Exec.{Outcome, ok, ◌>>=◌}
use nebulea_os.Kernel.Keeps.{Keeps, After, After-then, at}
use nebulea_os.Kernel.Chained.{Chained}
use nebulea_os.Kernel.Frames.{chained_rules}
use nebulea_os.Process.Chains.Endings.{exit-Chained, kill-Chained}
use nebulea_os.Process.Chains.Others.{
  waitpid-Chained, getpid-Chained, getprio-Chained, chprio-Chained, start-Chained,
}
use nebulea_os.MessageQueue.Chains.{
  pdelete-Chained, preset-Chained, psend-Chained, preceive-Chained, pcount-Chained, pcreate-Chained,
}
use nebulea_os.Semaphore.Chains.{
  sdelete-Chained, sreset-Chained, signal-Chained, signaln-Chained, try_wait-Chained, wait-Chained,
  scount-Chained, screate-Chained,
}
use nebulea_os.Clock.{tic_pit}
use nebulea_os.Syscall.{
  current_clock, SyscallNum, Params, Env, syscall, Event, call, tick, go_on, is_switched, handle,
}
use nebulea_os.Syscall.Chains.{resume_current-Chained, tic_pit-Chained, wait_clock-Chained}

-- The memory that the allocator hands over for a new object is not in use: no process there is in
-- a list, and no process waits at a queue or a semaphore there.
pub record IsNew (k : Kernel) (new : Ref) : Type 0 where
  pub unlinked : (k.process_at new).link ≡ none
  pub no_receiver : k.lists (Head.queue_waiters new) ≡ []
  pub no_waiter : k.lists (Head.semaphore_waiters new) ≡ []

current_clock-Chained : Keeps Chained current_clock
unfolding current_clock
current_clock-Chained = search chained_rules

syscall-Chained :
    (e : Env) (nr : SyscallNum) (p : Params) (k : Kernel)
    → IsNew k e.new
    → Chained k
    → After Chained (syscall e nr p k)
unfolding syscall
syscall-Chained e SyscallNum.nr_start p k f c = start-Chained _ e.new _ _ _ _ _ k (c, f.unlinked)
syscall-Chained e SyscallNum.nr_screate p k f c = screate-Chained e.new _ k c f.no_waiter
syscall-Chained e SyscallNum.nr_pcreate p k f c = pcreate-Chained e.new _ _ k c f.no_receiver
syscall-Chained e SyscallNum.nr_getpid p k f c = at getpid-Chained k c
syscall-Chained e SyscallNum.nr_getprio p k f c = at (getprio-Chained _) k c
syscall-Chained e SyscallNum.nr_chprio p k f c = at (chprio-Chained _ _) k c
syscall-Chained e SyscallNum.nr_kill p k f c = at (kill-Chained _) k c
syscall-Chained e SyscallNum.nr_waitpid p k f c = at (waitpid-Chained _ _) k c
syscall-Chained e SyscallNum.nr_exit p k f c = at (exit-Chained _) k c
syscall-Chained e SyscallNum.nr_scount p k f c = at (scount-Chained _) k c
syscall-Chained e SyscallNum.nr_sdelete p k f c = at (sdelete-Chained _) k c
syscall-Chained e SyscallNum.nr_signal p k f c = at (signal-Chained _) k c
syscall-Chained e SyscallNum.nr_signaln p k f c = at (signaln-Chained _ _) k c
syscall-Chained e SyscallNum.nr_sreset p k f c = at (sreset-Chained _ _) k c
syscall-Chained e SyscallNum.nr_try_wait p k f c = at (try_wait-Chained _) k c
syscall-Chained e SyscallNum.nr_wait p k f c = at (wait-Chained _) k c
syscall-Chained e SyscallNum.nr_pcount p k f c = at (pcount-Chained _ _) k c
syscall-Chained e SyscallNum.nr_pdelete p k f c = at (pdelete-Chained _) k c
syscall-Chained e SyscallNum.nr_preceive p k f c = at (preceive-Chained _ _) k c
syscall-Chained e SyscallNum.nr_preset p k f c = at (preset-Chained _) k c
syscall-Chained e SyscallNum.nr_psend p k f c = at (psend-Chained _ _) k c
syscall-Chained e SyscallNum.nr_current_clock p k f c = at current_clock-Chained k c
syscall-Chained e SyscallNum.nr_wait_clock p k f c = at (wait_clock-Chained _) k c

go_on-Chained : (b : Bool) → Keeps Chained (go_on b)
unfolding go_on
go_on-Chained false = search chained_rules
go_on-Chained true = search (chained_rules, resume_current-Chained)

-- What an event asks of the allocator.
abbrev pub Supplied : Event → Kernel → Type 0
Supplied (call e nr p) k = IsNew k e.new
Supplied tick k = Unit {0}

handle-Chained : (e : Event) (k : Kernel) → Supplied e k → Chained k → After Chained (handle e k)
unfolding handle ◌>>=◌
handle-Chained (call e nr p) k f c =
    After-then (syscall e nr p k) (λ r. go_on (is_switched r)) (syscall-Chained e nr p k f c)
      (λ r. go_on-Chained (is_switched r))
handle-Chained tick k f c = After-then (tic_pit k) go_on (at tic_pit-Chained k c) go_on-Chained

-- One event after the other, from a state on, none of which faults.
pub data Reach (start : Kernel) : Kernel → Type 0 where
  here : Reach start start
  next :
      {k k' : Kernel} (e : Event)
      → Reach start k
      → Supplied e k
      → handle e k ≡ ok tt k'
      → Reach start k'

After-ok :
    {A : Type 0} (P : Kernel → Type 0) (o : Outcome A) {a : A} {k : Kernel}
    → o ≡ ok a k
    → After P o
    → P k
After-ok P o e h = rw e at h

-- In every state that the kernel reaches by system calls and clock ticks that do not fault, from
-- a state where links and lists agree, they agree: a process stands once in the list that its
-- link names and in no other, and every list of processes ascends in priority. The memory that
-- the allocator hands over for a call is unused.
pub Reach-Chained : {k k' : Kernel} → Chained k → Reach k k' → Chained k'
Reach-Chained c here = c
Reach-Chained c (next {k} e r f ran) =
    After-ok Chained (handle e k) ran (handle-Chained e k f (Reach-Chained c r))
