-- ===== src/Tests/Machine.antt =====
-- A machine with five processes: the idle process may run, the shell runs, one process waits at a
-- semaphore, one sleeps until the tick 5, and one has finished.
use nebulea_os.Base.{
  ℕ, ◌+◌, ◌≡◌, false, Option, none, some, List, [], ◌∷◌, ◌==◌, arith, if◌then◌else◌, update,
}
use nebulea_os.Base.Int.{ℤ, pos, negsuc}
use nebulea_os.Kernel.Types.{Ref, State, Head, Resume, Process, MessageQueue, Semaphore, Kernel}
use nebulea_os.Kernel.Chained.{Chained, share}
use nebulea_os.Kernel.Lists.{priority_of}
use nebulea_os.Queue.Counts.{count}
use nebulea_os.Queue.Order.{IsSorted}
use nebulea_os.Semaphore.Balance.{IsBalanced}

abbrev pub process : (pid prio : ℕ) → State → Option Head → Process
process pid prio state link = record {
  pid = pid;
  state = state;
  priority = pos prio;
  wakeup_date = 5;
  link = link;
  father_pid = some 0;
  children = [];
  waited_pid = 0;
  message = pos 0;
  skip_message = false;
  arg = 0;
  waited_sem = 0;
  retval = pos 0;
  cr3 = pid + 1;
  resume = Resume.preempted;
}

abbrev pub processes : Ref → Process
processes =
    update
      (update
        (update
          (update (λ r. process 1 128 State.elected none) 100
            (process 0 1 State.activable (some Head.activable_list)))
          102 (process 2 7 State.finished (some Head.finished_list)))
        103 (process 3 9 State.asleep none))
      104 (process 4 11 State.in_sem (some (Head.semaphore_waiters 300)))

abbrev pub chains : Head → List Ref
chains Head.activable_list = 100 ∷ []
chains Head.finished_list = 102 ∷ []
chains Head.waiting_pid_list = []
chains (Head.queue_waiters q) = []
chains (Head.semaphore_waiters s) = if 300 == s then 104 ∷ [] else []

-- A queue with room for two messages that holds one.
abbrev pub mailbox : MessageQueue
mailbox = record {
  fid = 0;
  capacity = 2;
  nb_msg = 1;
  head = 0;
  tail = 1;
  buffer = pos 0 ∷ pos 41 ∷ [];
}

abbrev pub semaphore : ℕ → ℤ → Semaphore
semaphore sid count = record { sid = sid; count = count; was_reset = false; was_deleted = false }

abbrev pub machine : Kernel
machine = record {
  process_at = processes;
  process_table =
      update (update (update (update (λ pid. none) 0 (some 100)) 1 (some 101)) 3 (some 103)) 4
        (some 104);
  current_pid = 1;
  lists = chains;
  queue_at = λ q. mailbox;
  queue_table = update (λ fid. none) 0 (some 200);
  semaphore_at = update (λ s. semaphore 1 (pos 5)) 300 (semaphore 0 (negsuc 0));
  semaphore_table = update (update (λ sem. none) 0 (some 300)) 1 (some 301);
  time_count = 6;
  cr3 = 2;
  memory = λ space address. pos 0;
  freed = [];
}

pub machine-Chained : Chained machine
machine-Chained = record { counted = counted; sorted = sorted }
  where
    counted : (r : Ref) (h : Head) → count r (chains h) ≡ share (processes r).link h
    counted r Head.activable_list = ground arith
    counted r Head.finished_list = ground arith
    counted r Head.waiting_pid_list = ground arith
    counted r (Head.queue_waiters q) = ground arith
    counted r (Head.semaphore_waiters s) = ground arith

    sorted : (h : Head) → IsSorted (priority_of machine) (chains h)
    sorted Head.activable_list = (tt, tt)
    sorted Head.finished_list = (tt, tt)
    sorted Head.waiting_pid_list = tt
    sorted (Head.queue_waiters q) = tt
    sorted (Head.semaphore_waiters s) = ground arith

pub machine-IsBalanced : IsBalanced machine
machine-IsBalanced = record {
  linked = machine-Chained;
  balanced = λ s. record { waiting = ground arith; high = ground arith; low = ground arith };
}
