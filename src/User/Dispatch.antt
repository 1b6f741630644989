-- ===== src/User/Dispatch.antt =====
-- The functions of user/lib/syscall_user.c and those of the kernel that they reach.
use nebulea_os.Base.{◌+◌, ◌^◌, ◌<◌, ◌≡◌, refl, true, ltb, arith}
use nebulea_os.Base.Int.{ℤ, pos, negsuc, pos_part, neg_part, to_short, to_short_self}
use nebulea_os.Kernel.Exec.{Exec, Reply}
use nebulea_os.Process.Start.{start}
use nebulea_os.Process.Priority.{getpid, getprio, chprio}
use nebulea_os.Process.Ending.{exit, kill}
use nebulea_os.Process.Waitpid.{waitpid}
use nebulea_os.MessageQueue.Table.{pcreate, pdelete, preset}
use nebulea_os.MessageQueue.Transfer.{psend, preceive}
use nebulea_os.MessageQueue.Count.{pcount}
use nebulea_os.Semaphore.Table.{screate, sdelete, sreset, scount}
use nebulea_os.Semaphore.Counting.{signal, signaln, try_wait, wait}
use nebulea_os.Clock.{wait_clock}
use nebulea_os.Syscall.{Env, to_int, syscall, current_clock}
use nebulea_os.User.{UserCall, of_int, load_args, user_syscall, user_call}

-- The values of an `int` and of a `short`.
abbrev pub IsInt : ℤ → Type 0
IsInt z = (pos_part z < 2 ^ 31) × (neg_part z < 2 ^ 31 + 1)

abbrev pub IsShort : ℤ → Type 0
IsShort z = (pos_part z < 2 ^ 15) × (neg_part z < 2 ^ 15 + 1)

-- The arguments have values of their types.
abbrev pub Typed : UserCall → Type 0
Typed (UserCall.asks_start name ssize prio arg) = IsInt prio
Typed UserCall.asks_getpid = Unit {0}
Typed (UserCall.asks_getprio pid) = IsInt pid
Typed (UserCall.asks_kill pid) = IsInt pid
Typed (UserCall.asks_exit retval) = IsInt retval
Typed (UserCall.asks_chprio pid newprio) = IsInt pid × IsInt newprio
Typed (UserCall.asks_waitpid pid retval) = IsInt pid
Typed (UserCall.asks_scount sem) = IsInt sem
Typed (UserCall.asks_screate count) = IsShort count
Typed (UserCall.asks_sdelete sem) = IsInt sem
Typed (UserCall.asks_signal sem) = IsInt sem
Typed (UserCall.asks_try_wait sem) = IsInt sem
Typed (UserCall.asks_wait sem) = IsInt sem
Typed (UserCall.asks_signaln sem count) = IsInt sem × IsShort count
Typed (UserCall.asks_sreset sem count) = IsInt sem × IsShort count
Typed (UserCall.asks_pcount fid count) = IsInt fid
Typed (UserCall.asks_preceive fid message) = IsInt fid
Typed (UserCall.asks_pcreate count) = IsInt count
Typed (UserCall.asks_pdelete fid) = IsInt fid
Typed (UserCall.asks_preset fid) = IsInt fid
Typed (UserCall.asks_psend fid message) = IsInt fid × IsInt message
Typed UserCall.asks_current_clock = Unit {0}
Typed (UserCall.asks_wait_clock wakeup) = Unit {0}

-- The function of the kernel that a call names, on the arguments of the call.
abbrev pub kernel_call : Env → UserCall → Exec Reply
kernel_call e (UserCall.asks_start name ssize prio arg) =
    start e.symbols_table e.new e.cr3 (e.text_at name) ssize prio arg
kernel_call e UserCall.asks_getpid = getpid
kernel_call e (UserCall.asks_getprio pid) = getprio pid
kernel_call e (UserCall.asks_kill pid) = kill pid
kernel_call e (UserCall.asks_exit retval) = exit retval
kernel_call e (UserCall.asks_chprio pid newprio) = chprio pid newprio
kernel_call e (UserCall.asks_waitpid pid retval) = waitpid pid retval
kernel_call e (UserCall.asks_scount sem) = scount sem
kernel_call e (UserCall.asks_screate count) = screate e.new count
kernel_call e (UserCall.asks_sdelete sem) = sdelete sem
kernel_call e (UserCall.asks_signal sem) = signal sem
kernel_call e (UserCall.asks_try_wait sem) = try_wait sem
kernel_call e (UserCall.asks_wait sem) = wait sem
kernel_call e (UserCall.asks_signaln sem count) = signaln sem count
kernel_call e (UserCall.asks_sreset sem count) = sreset sem count
kernel_call e (UserCall.asks_pcount fid count) = pcount fid count
kernel_call e (UserCall.asks_preceive fid message) = preceive fid message
kernel_call e (UserCall.asks_pcreate count) = pcreate e.new e.buffer count
kernel_call e (UserCall.asks_pdelete fid) = pdelete fid
kernel_call e (UserCall.asks_preset fid) = preset fid
kernel_call e (UserCall.asks_psend fid message) = psend fid message
kernel_call e UserCall.asks_current_clock = current_clock
kernel_call e (UserCall.asks_wait_clock wakeup) = wait_clock wakeup

to_int-of_int : (z : ℤ) → IsInt z → to_int (of_int z) ≡ z
to_int-of_int (pos n) (h, _) = let low : ltb n 0x80000000 ≡ true = ground (arith, h) in rw low refl
to_int-of_int (negsuc n) (_, h) = ground (arith, h)

to_short-of_int : (z : ℤ) → IsShort z → to_short (to_int (of_int z)) ≡ z
to_short-of_int z (h, k) = rw (to_int-of_int z (omega arith, omega arith)) (to_short_self z h k)

-- A call of a user program, with arguments that have values of their types, reaches the function
-- of the kernel that it names, with the same arguments; that of start gets the text at the
-- address of the name.
pub syscall-user_call :
    (e : Env) (c : UserCall) → Typed c → syscall e (user_call c).0 (user_call c).1 ≡ kernel_call e c
unfolding syscall user_call user_syscall load_args
syscall-user_call e (UserCall.asks_start name ssize prio arg) h = rw (to_int-of_int prio h) refl
syscall-user_call e UserCall.asks_getpid h = refl
syscall-user_call e (UserCall.asks_getprio pid) h = rw (to_int-of_int pid h) refl
syscall-user_call e (UserCall.asks_kill pid) h = rw (to_int-of_int pid h) refl
syscall-user_call e (UserCall.asks_exit retval) h = rw (to_int-of_int retval h) refl
syscall-user_call e (UserCall.asks_chprio pid newprio) (h, g) =
    rw (to_int-of_int pid h, to_int-of_int newprio g) refl
syscall-user_call e (UserCall.asks_waitpid pid retval) h = rw (to_int-of_int pid h) refl
syscall-user_call e (UserCall.asks_scount sem) h = rw (to_int-of_int sem h) refl
syscall-user_call e (UserCall.asks_screate count) h = rw (to_short-of_int count h) refl
syscall-user_call e (UserCall.asks_sdelete sem) h = rw (to_int-of_int sem h) refl
syscall-user_call e (UserCall.asks_signal sem) h = rw (to_int-of_int sem h) refl
syscall-user_call e (UserCall.asks_try_wait sem) h = rw (to_int-of_int sem h) refl
syscall-user_call e (UserCall.asks_wait sem) h = rw (to_int-of_int sem h) refl
syscall-user_call e (UserCall.asks_signaln sem count) (h, g) =
    rw (to_short-of_int count g, to_int-of_int sem h) refl
syscall-user_call e (UserCall.asks_sreset sem count) (h, g) =
    rw (to_short-of_int count g, to_int-of_int sem h) refl
syscall-user_call e (UserCall.asks_pcount fid count) h = rw (to_int-of_int fid h) refl
syscall-user_call e (UserCall.asks_preceive fid message) h = rw (to_int-of_int fid h) refl
syscall-user_call e (UserCall.asks_pcreate count) h = rw (to_int-of_int count h) refl
syscall-user_call e (UserCall.asks_pdelete fid) h = rw (to_int-of_int fid h) refl
syscall-user_call e (UserCall.asks_preset fid) h = rw (to_int-of_int fid h) refl
syscall-user_call e (UserCall.asks_psend fid message) (h, g) =
    rw (to_int-of_int fid h, to_int-of_int message g) refl
syscall-user_call e UserCall.asks_current_clock h = refl
syscall-user_call e (UserCall.asks_wait_clock wakeup) h = refl
