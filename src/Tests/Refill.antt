-- ===== src/Tests/Refill.antt =====
-- A full message queue at which a process waits to send.
use nebulea_os.Base.{◌≡◌, refl, some, List, [], ◌∷◌, ◌==◌, arith, if◌then◌else◌, update}
use nebulea_os.Base.Int.{pos}
use nebulea_os.Kernel.Types.{Ref, State, Head, Process, MessageQueue, Kernel}
use nebulea_os.Kernel.Exec.{switched}
use nebulea_os.Kernel.Ends.{Ends}
use nebulea_os.Kernel.Chained.{Chained, share}
use nebulea_os.Kernel.Lists.{priority_of}
use nebulea_os.Queue.{top}
use nebulea_os.Queue.Order.{IsSorted}
use nebulea_os.Queue.Counts.{count}
use nebulea_os.Process.Scheduler.Calling.{Runs}
use nebulea_os.MessageQueue.Table.{find_queue}
use nebulea_os.MessageQueue.Ring.Contents.{IsRing}
use nebulea_os.MessageQueue.Transfer.{preceive}
use nebulea_os.MessageQueue.Refilling.{Refilled, preceive-Refilled}
use nebulea_os.Tests.Machine.{machine, process, processes}

abbrev full_box : MessageQueue
full_box = record {
  fid = 0;
  capacity = 2;
  nb_msg = 2;
  head = 1;
  tail = 1;
  buffer = pos 40 ∷ pos 41 ∷ [];
}

abbrev sender : Process
sender = record (process 5 12 State.in_msgqueue (some (Head.queue_waiters 200))) {
  message = pos 42;
}

abbrev with_sender : Head → List Ref
with_sender Head.activable_list = 100 ∷ []
with_sender Head.finished_list = 102 ∷ []
with_sender Head.waiting_pid_list = []
with_sender (Head.queue_waiters q) = if 200 == q then 105 ∷ [] else []
with_sender (Head.semaphore_waiters s) = if 300 == s then 104 ∷ [] else []

abbrev crowded : Kernel
crowded = record machine {
  process_at = update processes 105 sender;
  process_table = update machine.process_table 5 (some 105);
  lists = with_sender;
  queue_at = λ q. full_box;
}

crowded-Chained : Chained crowded
crowded-Chained = record { counted = counted; sorted = sorted }
  where
    counted : (r : Ref) (h : Head) → count r (with_sender h) ≡ share (crowded.process_at r).link h
    counted r Head.activable_list = ground arith
    counted r Head.finished_list = ground arith
    counted r Head.waiting_pid_list = ground arith
    counted r (Head.queue_waiters q) = ground arith
    counted r (Head.semaphore_waiters s) = ground arith

    sorted : (h : Head) → IsSorted (priority_of crowded) (with_sender h)
    sorted Head.activable_list = (tt, tt)
    sorted Head.finished_list = (tt, tt)
    sorted Head.waiting_pid_list = tt
    sorted (Head.queue_waiters q) = ground arith
    sorted (Head.semaphore_waiters s) = ground arith

crowded-Runs : Runs 101 crowded
crowded-Runs = record {
  chained = crowded-Chained;
  sleepers = λ r e. ground arith;
  none_finished = λ r m. ground arith;
  here = refl;
  free = refl;
}

full_box-IsRing : IsRing full_box
full_box-IsRing = record {
  some_room = omega arith;
  small = omega arith;
  in_head = omega arith;
  in_tail = omega arith;
  whole = refl;
  apart = refl;
}

crowded_queue : find_queue (pos 0) crowded ≡ some 200
unfolding find_queue
crowded_queue = refl

first_sender : top (crowded.lists (Head.queue_waiters 200)) ≡ some 105
unfolding top
first_sender = refl

preceive-Refilled_example :
    Ends
      (λ r k'. (r ≡ switched) × ((new : Ref) × Refilled 200 105 101 4096 crowded new k'))
      (preceive (pos 0) 4096 crowded)
preceive-Refilled_example =
    preceive-Refilled (pos 0) 4096 crowded 200 105 101 crowded_queue crowded-Runs full_box-IsRing
      refl first_sender
