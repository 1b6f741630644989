-- ===== src/User.antt =====
-- user/lib/syscall_user.c: the functions by which a user program calls the kernel, without those of the console, of shared memory
-- and of the clock's settings. The build compiles the functions on semaphores or those on message queues.
pub mod Dispatch
pub mod Break
use nebulea_os.Base.{ℕ, zero, suc, ◌+◌, ◌-◌, ◌^◌, List, [], ◌∷◌, set, get_or}
use nebulea_os.Base.Int.{ℤ, pos, negsuc}
use nebulea_os.Syscall.{SyscallNum, Params}

-- A call with its arguments; a pointer and an `unsigned long` are a word.
pub data UserCall : Type 0 where
  asks_start : (process_name ssize : ℕ) (prio : ℤ) (arg : ℕ) → UserCall
  asks_getpid : UserCall
  asks_getprio asks_kill asks_exit : ℤ → UserCall
  asks_chprio : (pid newprio : ℤ) → UserCall
  asks_waitpid : (pid : ℤ) (retval : ℕ) → UserCall
  asks_scount asks_screate asks_sdelete asks_signal asks_try_wait asks_wait : ℤ → UserCall
  asks_signaln asks_sreset : (sem count : ℤ) → UserCall
  asks_pcount asks_preceive : (fid : ℤ) (address : ℕ) → UserCall
  asks_pcreate asks_pdelete asks_preset : ℤ → UserCall
  asks_psend : (fid message : ℤ) → UserCall
  asks_current_clock : UserCall
  asks_wait_clock : ℕ → UserCall

-- An `int`, or a `short` that is promoted to one, as the word that is passed.
abbrev pub of_int : ℤ → ℕ
of_int (pos n) = n
of_int (negsuc n) = 2 ^ 32 - suc n

-- The loop of `__syscall` over its variable arguments, with the rounds left; fewer arguments than rounds are not read.
unfoldable pub load_args : (rounds i : ℕ) → (va : List ℕ) → (args : List ℕ) → List ℕ
load_args zero i va args = args
load_args (suc n) i [] args = args
load_args (suc n) i (v ∷ va) args = load_args n (i + 1) va (set args i v)

abbrev pub null_args : List ℕ
null_args = 0 ∷ 0 ∷ 0 ∷ 0 ∷ 0 ∷ 0 ∷ []

-- `__do_interruption` moves the arguments to the registers, of which the kernel reads these.
abbrev pub to_registers : List ℕ → Params
to_registers args = record {
  param1 = get_or args 0 0;
  param2 = get_or args 1 0;
  param3 = get_or args 2 0;
  param4 = get_or args 3 0;
}

-- `__syscall` up to the interruption
unfoldable pub user_syscall : SyscallNum → (args_number : ℕ) → List ℕ → SyscallNum × Params
user_syscall num args_number va = (num, to_registers (load_args args_number 0 va null_args))

abbrev pub user_start : (process_name ssize : ℕ) (prio : ℤ) (arg : ℕ) → SyscallNum × Params
user_start name ssize prio arg =
    user_syscall SyscallNum.nr_start 4 (name ∷ ssize ∷ of_int prio ∷ arg ∷ [])

abbrev pub user_getpid : SyscallNum × Params
user_getpid = user_syscall SyscallNum.nr_getpid 0 []

abbrev pub user_getprio : ℤ → SyscallNum × Params
user_getprio pid = user_syscall SyscallNum.nr_getprio 1 (of_int pid ∷ [])

abbrev pub user_kill : ℤ → SyscallNum × Params
user_kill pid = user_syscall SyscallNum.nr_kill 1 (of_int pid ∷ [])

abbrev pub user_exit : ℤ → SyscallNum × Params
user_exit retval = user_syscall SyscallNum.nr_exit 1 (of_int retval ∷ [])

abbrev pub user_chprio : (pid newprio : ℤ) → SyscallNum × Params
user_chprio pid newprio = user_syscall SyscallNum.nr_chprio 2 (of_int pid ∷ of_int newprio ∷ [])

abbrev pub user_waitpid : (pid : ℤ) (retval : ℕ) → SyscallNum × Params
user_waitpid pid retval = user_syscall SyscallNum.nr_waitpid 2 (of_int pid ∷ retval ∷ [])

abbrev pub user_scount : ℤ → SyscallNum × Params
user_scount sem = user_syscall SyscallNum.nr_scount 1 (of_int sem ∷ [])

abbrev pub user_screate : ℤ → SyscallNum × Params
user_screate count = user_syscall SyscallNum.nr_screate 1 (of_int count ∷ [])

abbrev pub user_sdelete : ℤ → SyscallNum × Params
user_sdelete sem = user_syscall SyscallNum.nr_sdelete 1 (of_int sem ∷ [])

abbrev pub user_signal : ℤ → SyscallNum × Params
user_signal sem = user_syscall SyscallNum.nr_signal 1 (of_int sem ∷ [])

abbrev pub user_try_wait : ℤ → SyscallNum × Params
user_try_wait sem = user_syscall SyscallNum.nr_try_wait 1 (of_int sem ∷ [])

abbrev pub user_wait : ℤ → SyscallNum × Params
user_wait sem = user_syscall SyscallNum.nr_wait 1 (of_int sem ∷ [])

abbrev pub user_signaln : (sem count : ℤ) → SyscallNum × Params
user_signaln sem count = user_syscall SyscallNum.nr_signaln 2 (of_int sem ∷ of_int count ∷ [])

abbrev pub user_sreset : (sem count : ℤ) → SyscallNum × Params
user_sreset sem count = user_syscall SyscallNum.nr_sreset 2 (of_int sem ∷ of_int count ∷ [])

abbrev pub user_pcount : (fid : ℤ) (address : ℕ) → SyscallNum × Params
user_pcount fid count = user_syscall SyscallNum.nr_pcount 2 (of_int fid ∷ count ∷ [])

abbrev pub user_preceive : (fid : ℤ) (address : ℕ) → SyscallNum × Params
user_preceive fid message = user_syscall SyscallNum.nr_preceive 2 (of_int fid ∷ message ∷ [])

abbrev pub user_pcreate : ℤ → SyscallNum × Params
user_pcreate count = user_syscall SyscallNum.nr_pcreate 1 (of_int count ∷ [])

abbrev pub user_pdelete : ℤ → SyscallNum × Params
user_pdelete fid = user_syscall SyscallNum.nr_pdelete 1 (of_int fid ∷ [])

abbrev pub user_preset : ℤ → SyscallNum × Params
user_preset fid = user_syscall SyscallNum.nr_preset 1 (of_int fid ∷ [])

abbrev pub user_psend : (fid message : ℤ) → SyscallNum × Params
user_psend fid message = user_syscall SyscallNum.nr_psend 2 (of_int fid ∷ of_int message ∷ [])

abbrev pub user_current_clock : SyscallNum × Params
user_current_clock = user_syscall SyscallNum.nr_current_clock 0 []

abbrev pub user_wait_clock : ℕ → SyscallNum × Params
user_wait_clock wakeup = user_syscall SyscallNum.nr_wait_clock 1 (wakeup ∷ [])

-- What a call makes the kernel read.
unfoldable pub user_call : UserCall → SyscallNum × Params
user_call (UserCall.asks_start name ssize prio arg) = user_start name ssize prio arg
user_call UserCall.asks_getpid = user_getpid
user_call (UserCall.asks_getprio pid) = user_getprio pid
user_call (UserCall.asks_kill pid) = user_kill pid
user_call (UserCall.asks_exit retval) = user_exit retval
user_call (UserCall.asks_chprio pid newprio) = user_chprio pid newprio
user_call (UserCall.asks_waitpid pid retval) = user_waitpid pid retval
user_call (UserCall.asks_scount sem) = user_scount sem
user_call (UserCall.asks_screate count) = user_screate count
user_call (UserCall.asks_sdelete sem) = user_sdelete sem
user_call (UserCall.asks_signal sem) = user_signal sem
user_call (UserCall.asks_try_wait sem) = user_try_wait sem
user_call (UserCall.asks_wait sem) = user_wait sem
user_call (UserCall.asks_signaln sem count) = user_signaln sem count
user_call (UserCall.asks_sreset sem count) = user_sreset sem count
user_call (UserCall.asks_pcount fid count) = user_pcount fid count
user_call (UserCall.asks_preceive fid message) = user_preceive fid message
user_call (UserCall.asks_pcreate count) = user_pcreate count
user_call (UserCall.asks_pdelete fid) = user_pdelete fid
user_call (UserCall.asks_preset fid) = user_preset fid
user_call (UserCall.asks_psend fid message) = user_psend fid message
user_call UserCall.asks_current_clock = user_current_clock
user_call (UserCall.asks_wait_clock wakeup) = user_wait_clock wakeup
