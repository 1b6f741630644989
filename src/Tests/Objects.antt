-- ===== src/Tests/Objects.antt =====
-- The message queue and the semaphores of the machine of Tests/Machine.
use nebulea_os.Base.{ℕ, ◌≡◌, refl, none, some, List, [], ◌∷◌, arith, ◌==◌, if◌then◌else◌}
use nebulea_os.Base.Int.{ℤ, pos}
use nebulea_os.Kernel.Keeps.{After}
use nebulea_os.Kernel.Ends.{Ends}
use nebulea_os.Queue.Fifo.{Move, comes, leaves, answers, served, answers-served}
use nebulea_os.MessageQueue.Table.{find_queue}
use nebulea_os.MessageQueue.Ring.Contents.{IsRing}
use nebulea_os.MessageQueue.Transfer.{psend, preceive}
use nebulea_os.MessageQueue.Delivery.{Sent, Received, psend-Sent, preceive-Received}
use nebulea_os.Semaphore.Table.{find_semaphore, sdelete}
use nebulea_os.Semaphore.Counting.{signal, signaln, try_wait, wait}
use nebulea_os.Semaphore.Balance.{IsBalanced}
use nebulea_os.Semaphore.Balance.Waking.{semaphore_calls-IsBalanced}
use nebulea_os.Semaphore.Deletion.{sdelete-fails}
use nebulea_os.Tests.Machine.{machine, machine-IsBalanced, mailbox}

mailbox-IsRing : IsRing mailbox
mailbox-IsRing = record {
  some_room = omega arith;
  small = omega arith;
  in_head = omega arith;
  in_tail = omega arith;
  whole = refl;
  apart = refl;
}

first_queue : find_queue (pos 0) machine ≡ some 200
unfolding find_queue
first_queue = refl

first_semaphore : find_semaphore (pos 0) machine ≡ some 300
unfolding find_semaphore
first_semaphore = refl

second_semaphore : find_semaphore (pos 1) machine ≡ some 301
unfolding find_semaphore
second_semaphore = refl

psend-Sent_example : Ends (Sent 200 (pos 42) machine) (psend (pos 0) (pos 42) machine)
psend-Sent_example =
    psend-Sent (pos 0) (pos 42) machine 200 101 first_queue refl mailbox-IsRing (omega arith) refl

preceive-Received_example : Ends (Received 200 4096 machine) (preceive (pos 0) 4096 machine)
preceive-Received_example =
    preceive-Received (pos 0) 4096 machine 200 first_queue mailbox-IsRing (omega arith) refl

sdelete-fails_example : After (λ _. ⊥) (sdelete (pos 0) machine)
sdelete-fails_example = sdelete-fails (pos 0) machine 300 first_semaphore

-- Three processes by their numbers, with priorities of their own.
abbrev prio_of : ℕ → ℤ
prio_of x = if x == 1 then pos 10 else pos 20

-- 1 comes, then 2 and 3 of equal priority; two leave, 4 comes, and three are asked for.
abbrev day : List (Move ℕ)
day = comes 1 ∷ comes 2 ∷ comes 3 ∷ leaves ∷ leaves ∷ comes 4 ∷ leaves ∷ leaves ∷ leaves ∷ []

answers-served_example : answers prio_of day [] ≡ served prio_of day []
answers-served_example = answers-served prio_of day

answers-day : served prio_of day [] ≡ some 2 ∷ some 3 ∷ some 4 ∷ some 1 ∷ none ∷ []
answers-day = refl

semaphore_calls-IsBalanced_example :
    After IsBalanced (wait (pos 0) machine)
    × After IsBalanced (signal (pos 0) machine)
    × After IsBalanced (signaln (pos 0) (pos 3) machine)
    × After IsBalanced (try_wait (pos 0) machine)
semaphore_calls-IsBalanced_example =
    semaphore_calls-IsBalanced (pos 0) (pos 3) machine machine-IsBalanced
