-- ===== src/Kernel/Types.antt =====
-- The data of kernel/process.h, kernel/message_queue.h and kernel/semaphore.h. An object behind a
-- pointer is found in a store under its address, so that two pointers may name one object.
use nebulea_os.Base.{ℕ, Bool, true, false, Option, List, ◌==◌}
use nebulea_os.Base.Int.{ℤ}

-- An address. The null pointer is `none`, or 0 where user code hands over an address.
abbrev pub Ref : Type 0
Ref = ℕ

pub data State : Type 0 where
  elected activable asleep zombie finished waiting_pid in_msgqueue in_sem : State

abbrev pub is_zombie : State → Bool
is_zombie State.zombie = true
is_zombie _ = false

abbrev pub is_asleep : State → Bool
is_asleep State.asleep = true
is_asleep _ = false

abbrev pub is_finished : State → Bool
is_finished State.finished = true
is_finished _ = false

abbrev pub is_elected : State → Bool
is_elected State.elected = true
is_elected _ = false

abbrev pub is_in_sem : State → Bool
is_in_sem State.in_sem = true
is_in_sem _ = false

-- The list heads in which a `Process` may be chained by its field `link`.
pub data Head : Type 0 where
  activable_list finished_list waiting_pid_list : Head
  queue_waiters semaphore_waiters : Ref → Head

abbrev pub same_head : Head → Head → Bool
same_head Head.activable_list Head.activable_list = true
same_head Head.finished_list Head.finished_list = true
same_head Head.waiting_pid_list Head.waiting_pid_list = true
same_head (Head.queue_waiters q) (Head.queue_waiters r) = q == r
same_head (Head.semaphore_waiters s) (Head.semaphore_waiters r) = s == r
same_head _ _ = false

-- Where a process goes on when a context switch returns to it: what its kernel stack holds.
pub data Resume : Type 0 where
  -- in user mode, at the start of the program or where the timer interrupted it
  user_start preempted : Resume
  -- at a `return` behind a call of the scheduler
  returning : ℤ → Resume
  -- behind the context switch in `start`, `psend`, `preceive`, `wait`, and `waitpid`
  started sending semaphore_waiting : Ref → Resume
  receiving : Ref → Ref → (message : ℕ) → Resume
  waiting_any : (retvalp : ℕ) → Resume
  waiting_for : (pid retvalp : ℕ) → Resume
  -- in the endless loop of `exit`
  ended : Resume

pub record Child : Type 0 where
  pub pid : ℕ
  pub priority : ℤ

-- `link` is the list in which the element is chained, `none` where both its pointers are null.
-- `father_pid` is `none` where the source has -1. `resume` stands for the saved registers, `arg` for the word
-- that `start` puts on the new stacks.
pub record Process : Type 0 where
  pub pid : ℕ
  pub state : State
  pub priority : ℤ
  pub wakeup_date : ℕ
  pub link : Option Head
  pub father_pid : Option ℕ
  pub children : List Child
  pub waited_pid : ℕ
  pub message : ℤ
  pub skip_message : Bool
  pub waited_sem : ℕ
  pub retval : ℤ
  pub cr3 : ℕ
  pub arg : ℕ
  pub resume : Resume

-- The waiting processes are the list of the head `queue_waiters`.
pub record MessageQueue : Type 0 where
  pub fid : ℕ
  pub capacity : ℕ
  pub nb_msg : ℕ
  pub head : ℕ
  pub tail : ℕ
  pub buffer : List ℤ

-- The waiting processes are the list of the head `semaphore_waiters`.
pub record Semaphore : Type 0 where
  pub sid : ℕ
  pub count : ℤ
  pub was_reset : Bool
  pub was_deleted : Bool

-- The global variables. `lists` gives for each list head the elements from `head->next` on,
-- `memory` what user addresses hold under each page directory.
pub record Kernel : Type 0 where
  pub process_at : Ref → Process
  pub process_table : ℕ → Option Ref
  pub current_pid : ℕ
  pub lists : Head → List Ref
  pub queue_at : Ref → MessageQueue
  pub queue_table : ℕ → Option Ref
  pub semaphore_at : Ref → Semaphore
  pub semaphore_table : ℕ → Option Ref
  pub time_count : ℕ
  pub cr3 : ℕ
  pub memory : ℕ → ℕ → ℤ
  pub freed : List Ref

abbrev pub nb_proc : ℕ
nb_proc = 30

abbrev pub max_prio : ℕ
max_prio = 256

abbrev pub nb_queue : ℕ
nb_queue = 10

abbrev pub queue_max_size : ℕ
queue_max_size = 1000

abbrev pub nb_semaphore : ℕ
nb_semaphore = 10000

abbrev pub semaphore_max_size : ℕ
semaphore_max_size = 32767

-- The first address that a user program may hand over.
abbrev pub user_memory_start : ℕ
user_memory_start = 0x4000000
