-- ===== src/Tests/Meeting.antt =====
-- The shell of the machine of Tests/Machine sends to a process that waits to receive.
use nebulea_os.Base.{◌≡◌, refl, some, [], ◌∷◌, arith, update}
use nebulea_os.Base.Int.{pos}
use nebulea_os.Kernel.Types.{Head, State, Resume, Process, MessageQueue, Kernel}
use nebulea_os.Kernel.Exec.{◌>>=◌}
use nebulea_os.Kernel.Ends.{Ends}
use nebulea_os.Kernel.Lists.{update_list}
use nebulea_os.Queue.{top}
use nebulea_os.MessageQueue.Table.{find_queue}
use nebulea_os.MessageQueue.Ring.Contents.{IsRing}
use nebulea_os.MessageQueue.Transfer.{psend}
use nebulea_os.MessageQueue.Rendezvous.{Meets, psend-Meets}
use nebulea_os.Resume.{resume_current}
use nebulea_os.Tests.Machine.{process, processes, chains, mailbox, machine}

abbrev receiver : Process
receiver = record (process 5 9 State.in_msgqueue (some (Head.queue_waiters 200))) {
  resume = Resume.receiving 105 200 4096;
}

abbrev empty_mailbox : MessageQueue
empty_mailbox = record mailbox { nb_msg = 0; head = 1; tail = 1 }

abbrev meeting : Kernel
meeting = record machine {
  process_at = update processes 105 receiver;
  process_table = update machine.process_table 5 (some 105);
  lists = update_list chains (Head.queue_waiters 200) (105 ∷ []);
  queue_at = λ q. empty_mailbox;
}

empty_mailbox-IsRing : IsRing empty_mailbox
empty_mailbox-IsRing = record {
  some_room = omega arith;
  small = omega arith;
  in_head = omega arith;
  in_tail = omega arith;
  whole = refl;
  apart = refl;
}

meeting-Meets : Meets 200 101 105 4096 meeting
unfolding top
meeting-Meets = record {
  here = refl;
  free = refl;
  empty = refl;
  ring = empty_mailbox-IsRing;
  first = refl;
  some_wait = refl;
  apart = refl;
  in_table = refl;
  receives = refl;
  goes_on = refl;
}

queue-here : find_queue (pos 0) meeting ≡ some 200
unfolding find_queue
queue-here = refl

psend-Meets_example :
    Ends
      (λ v k'.
        (v ≡ some (pos 0))
        × (k'.current_pid ≡ 5)
        × ((k'.queue_at 200).nb_msg ≡ 0)
        × (k'.memory ≡ update meeting.memory 6 (update (meeting.memory 6) 4096 (pos 42))))
      ((psend (pos 0) (pos 42) >>= λ _. resume_current) meeting)
psend-Meets_example = psend-Meets (pos 0) (pos 42) meeting 200 101 105 4096 queue-here meeting-Meets
