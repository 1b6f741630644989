-- ===== src/Tests/Scheduling.antt =====
-- The scheduler and the system calls on the machine of Tests/Machine.
use nebulea_os.Base.{◌≡◌, ◌≢◌, refl, true, some, [], ◌∷◌, arith}
use nebulea_os.Base.Int.{pos}
use nebulea_os.Kernel.Types.{Head, Ref, Resume, Kernel}
use nebulea_os.Kernel.Exec.{ok, ◌>>=◌, switched}
use nebulea_os.Kernel.Ends.{Ends}
use nebulea_os.Kernel.Chained.{Chained}
use nebulea_os.Kernel.Frames.{Chained-same}
use nebulea_os.Queue.Counts.{count}
use nebulea_os.Process.Scheduler.Calling.{Runs, yielding, StillMayRun, yield_cpu-Scheduled}
use nebulea_os.Clock.Preemption.{ticked, tic_pit-Scheduled}
use nebulea_os.Semaphore.Counting.{wait}
use nebulea_os.Semaphore.Blocking.{blocked, Waits, wait-Scheduled}
use nebulea_os.Process.Priority.{getpid}
use nebulea_os.Process.Scheduler.{scheduler, yield_cpu}
use nebulea_os.Process.Scheduler.Freeing.{NoneHas}
use nebulea_os.Process.Scheduler.Waking.{SleepersFree}
use nebulea_os.Process.Scheduler.Electing.{CanSchedule, Scheduled, scheduler-Scheduled}
use nebulea_os.Semaphore.Table.{find_semaphore}
use nebulea_os.Clock.{tic_pit}
use nebulea_os.Syscall.{SyscallNum, Event, call, tick, Env, syscall, go_on, handle}
use nebulea_os.Reachable.{IsNew, here, next, Reach-Chained}
use nebulea_os.Tests.Machine.{machine, machine-Chained}

machine-SleepersFree : SleepersFree machine
machine-SleepersFree r e = ground arith

machine-NoneHas : NoneHas 1 machine (102 ∷ [])
machine-NoneHas r e = ground arith

machine-CanSchedule : CanSchedule 101 machine
machine-CanSchedule = record {
  chained = machine-Chained;
  sleepers = machine-SleepersFree;
  none_finished = machine-NoneHas;
  here = refl;
  ready = (100, ground arith);
}

scheduler-Scheduled_example :
    Ends
      (λ _ k'. (new : Ref) × Scheduled Resume.preempted 101 machine new k')
      (scheduler Resume.preempted machine)
scheduler-Scheduled_example = scheduler-Scheduled Resume.preempted 101 machine machine-CanSchedule

-- A call of `getpid` after a tick at which the scheduler is not called.
abbrev empty_env : Env
empty_env = record { symbols_table = []; text_at = λ a. ""; new = 900; cr3 = 7; buffer = [] }

abbrev getpid_call : Event
getpid_call =
    call empty_env SyscallNum.nr_getpid (record { param1 = 0; param2 = 0; param3 = 0; param4 = 0 })

abbrev later : Kernel
later = record machine { time_count = 7 }

tick-later : handle tick machine ≡ ok tt later
unfolding handle tic_pit go_on ◌>>=◌
tick-later = refl

getpid-later : handle getpid_call later ≡ ok tt later
unfolding handle syscall getpid go_on ◌>>=◌
getpid-later = refl

later-IsNew : IsNew later 900
later-IsNew = record { unlinked = refl; no_receiver = refl; no_waiter = refl }

Reach-Chained_example : Chained later
Reach-Chained_example =
    Reach-Chained machine-Chained
      (next getpid_call (next tick here tt tick-later) later-IsNew getpid-later)

-- The shell runs, one tick before the scheduler is called.
abbrev before_switch : Kernel
before_switch = record machine { time_count = 9 }

machine-Runs : Runs 101 machine
machine-Runs = record {
  chained = machine-Chained;
  sleepers = machine-SleepersFree;
  none_finished = machine-NoneHas;
  here = refl;
  free = refl;
}

before_switch-Runs : Runs 101 before_switch
before_switch-Runs = record {
  chained = Chained-same machine before_switch refl refl machine-Chained;
  sleepers = machine-SleepersFree;
  none_finished = machine-NoneHas;
  here = refl;
  free = refl;
}

idle-activable : (r : Ref) × (count r (machine.lists Head.activable_list) ≢ 0)
idle-activable = (100, ground arith)

tic_pit-Scheduled_example :
    Ends
      (λ called k'.
        (called ≡ true)
        × ((new : Ref) × Scheduled Resume.preempted 101 (yielding 101 (ticked before_switch)) new k'
            × StillMayRun 101 new k'))
      (tic_pit before_switch)
tic_pit-Scheduled_example = tic_pit-Scheduled 101 before_switch before_switch-Runs refl refl

yield_cpu-Scheduled_example :
    Ends
      (λ _ k'.
        (new : Ref) × Scheduled (Resume.returning (pos 0)) 101 (yielding 101 machine) new k'
        × StillMayRun 101 new k')
      (yield_cpu (Resume.returning (pos 0)) machine)
yield_cpu-Scheduled_example =
    yield_cpu-Scheduled (Resume.returning (pos 0)) 101 machine machine-Runs

first_semaphore_here : find_semaphore (pos 0) machine ≡ some 300
unfolding find_semaphore
first_semaphore_here = refl

wait-Scheduled_example :
    Ends
      (λ r k'.
        (r ≡ switched)
        × ((new : Ref) × Scheduled
              (Resume.semaphore_waiting 300)
              101
              (blocked 0 300 101 machine)
              new
              k'
            × Waits 0 300 101 machine new k'))
      (wait (pos 0) machine)
wait-Scheduled_example =
    wait-Scheduled 0 300 101 machine first_semaphore_here machine-Runs refl (omega arith)
      idle-activable
