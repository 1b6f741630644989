-- ===== src/Syscall.antt =====
-- kernel/syscall_kernel.c: the choice of the function by the number of the system call, for the
-- calls that are modelled, and the events that move the whole kernel.
pub mod Chains
use Prim.Native.String.{String}
use nebulea_os.Base.{ℕ, ◌-◌, ◌^◌, Bool, true, false, List, ltb, if◌then◌else◌}
use nebulea_os.Base.Int.{ℤ, pos, to_short, sub_ℕ}
use nebulea_os.Kernel.Types.{Ref, Kernel}
use nebulea_os.Kernel.Exec.{Exec, ◌>>=◌, ◌>>◌, pure, gets, Reply, value, switched, reply}
use nebulea_os.Process.Start.{start}
use nebulea_os.Process.Priority.{getpid, getprio, chprio}
use nebulea_os.Process.Ending.{exit, kill}
use nebulea_os.Process.Waitpid.{waitpid}
use nebulea_os.MessageQueue.Table.{pcreate, pdelete, preset}
use nebulea_os.MessageQueue.Transfer.{psend, preceive}
use nebulea_os.MessageQueue.Count.{pcount}
use nebulea_os.Semaphore.Table.{screate, sdelete, sreset, scount}
use nebulea_os.Semaphore.Counting.{signal, signaln, try_wait, wait}
use nebulea_os.Clock.{tic_pit, wait_clock}
use nebulea_os.Resume.{resume_current}

-- The numbers of shared/syscall_nums.h, without those of the console and of shared memory.
pub data SyscallNum : Type 0 where
  nr_start nr_getpid nr_getprio nr_chprio nr_kill nr_waitpid nr_exit : SyscallNum
  nr_scount nr_screate nr_sdelete nr_signal nr_signaln nr_sreset nr_try_wait nr_wait : SyscallNum
  nr_pcount nr_pcreate nr_pdelete nr_preceive nr_preset nr_psend : SyscallNum
  nr_current_clock nr_wait_clock : SyscallNum

-- The registers in which a user program hands over its parameters, as 32-bit words.
pub record Params : Type 0 where
  pub param1 : ℕ
  pub param2 : ℕ
  pub param3 : ℕ
  pub param4 : ℕ

-- What a call gets from elsewhere: the programs, the text at an address, and new memory.
pub record Env : Type 0 where
  pub symbols_table : List String
  pub text_at : ℕ → String
  pub new : Ref
  pub cr3 : ℕ
  pub buffer : List ℤ

-- A word read as `int`.
abbrev pub to_int : ℕ → ℤ
to_int w = if ltb w 0x80000000 then pos w else sub_ℕ w (2 ^ 32)

-- `current_clock`, whose result is returned as `int`.
unfoldable pub current_clock : Exec Reply
current_clock = do now ← gets (λ k. k.time_count); reply (to_int now)

unfoldable pub syscall : Env → SyscallNum → Params → Exec Reply
syscall e SyscallNum.nr_start p =
    start e.symbols_table e.new e.cr3 (e.text_at p.param1) p.param2 (to_int p.param3) p.param4
syscall e SyscallNum.nr_getpid p = getpid
syscall e SyscallNum.nr_getprio p = getprio (to_int p.param1)
syscall e SyscallNum.nr_chprio p = chprio (to_int p.param1) (to_int p.param2)
syscall e SyscallNum.nr_kill p = kill (to_int p.param1)
syscall e SyscallNum.nr_waitpid p = waitpid (to_int p.param1) p.param2
syscall e SyscallNum.nr_exit p = exit (to_int p.param1)
syscall e SyscallNum.nr_scount p = scount (to_int p.param1)
syscall e SyscallNum.nr_screate p = screate e.new (to_short (to_int p.param1))
syscall e SyscallNum.nr_sdelete p = sdelete (to_int p.param1)
syscall e SyscallNum.nr_signal p = signal (to_int p.param1)
syscall e SyscallNum.nr_signaln p = signaln (to_int p.param1) (to_short (to_int p.param2))
syscall e SyscallNum.nr_sreset p = sreset (to_int p.param1) (to_short (to_int p.param2))
syscall e SyscallNum.nr_try_wait p = try_wait (to_int p.param1)
syscall e SyscallNum.nr_wait p = wait (to_int p.param1)
syscall e SyscallNum.nr_pcount p = pcount (to_int p.param1) p.param2
syscall e SyscallNum.nr_pcreate p = pcreate e.new e.buffer (to_int p.param1)
syscall e SyscallNum.nr_pdelete p = pdelete (to_int p.param1)
syscall e SyscallNum.nr_preceive p = preceive (to_int p.param1) p.param2
syscall e SyscallNum.nr_preset p = preset (to_int p.param1)
syscall e SyscallNum.nr_psend p = psend (to_int p.param1) (to_int p.param2)
syscall e SyscallNum.nr_current_clock p = current_clock
syscall e SyscallNum.nr_wait_clock p = wait_clock p.param1

-- What moves the kernel: a system call of the current process, or the clock.
pub data Event : Type 0 where
  call : Env → SyscallNum → Params → Event
  tick : Event

-- After a switch the process that is now current runs to the end of its own system call.
unfoldable pub go_on : Bool → Exec (Unit {0})
go_on false = pure tt
go_on true = do v ← resume_current; pure tt

abbrev pub is_switched : Reply → Bool
is_switched (value v) = false
is_switched switched = true

unfoldable pub handle : Event → Exec (Unit {0})
handle (call e nr p) = do r ← syscall e nr p; go_on (is_switched r)
handle tick = do s ← tic_pit; go_on s
