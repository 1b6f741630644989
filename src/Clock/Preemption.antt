-- ===== src/Clock/Preemption.antt =====
-- `tic_PIT` of kernel/time.c at the ticks at which it calls the scheduler.
use nebulea_os.Base.{◌+◌, ◌%◌, ◌^◌, ◌≡◌, ◌==◌, refl, true, arith}
use nebulea_os.Kernel.Types.{Ref, Head, State, Resume, Kernel, is_elected}
use nebulea_os.Kernel.Exec.{◌>>=◌, pure}
use nebulea_os.Kernel.Ends.{Ends, Ends-then}
use nebulea_os.Kernel.Frames.{Chained-same}
use nebulea_os.Kernel.Steps.{with_process, queue_add-ok}
use nebulea_os.Process.Scheduler.{set_state, scheduler}
use nebulea_os.Process.Scheduler.Electing.{Scheduled, scheduler-Scheduled}
use nebulea_os.Process.Scheduler.Calling.{
  Runs, yielding, yielding-CanSchedule, StillMayRun, yielding-StillMayRun,
}
use nebulea_os.Clock.{tic_pit, schedfreq}

-- The kernel one tick later.
abbrev pub ticked : Kernel → Kernel
ticked k = record k { time_count = (k.time_count + 1) % 2 ^ 32 }

ticked-Runs : (me : Ref) (k : Kernel) → Runs me k → Runs me (ticked k)
ticked-Runs me k runs = record {
  chained = Chained-same k (ticked k) refl refl runs.chained;
  sleepers = runs.sleepers;
  none_finished = runs.none_finished;
  here = runs.here;
  free = runs.free;
}

-- At a tick whose count is a multiple of SCHEDFREQ, where links and lists agree, no sleeping
-- process is in a list, no finished one has the current pid and the current process is elected
-- and in no list, the interrupt does not fault: from the state in which the current process is
-- activable again, the scheduler elects as in Process.Scheduler.Electing, and at the end the
-- process that was current is the elected one, or it is activable and in the list of those.
pub tic_pit-Scheduled :
    (me : Ref) (k : Kernel)
    → Runs me k
    → (k.process_at me).state ≡ State.elected
    → (ticked k).time_count % schedfreq ≡ 0
    → Ends
        (λ called k'.
          (called ≡ true)
          × ((new : Ref) × Scheduled Resume.preempted me (yielding me (ticked k)) new k'
              × StillMayRun me new k'))
        (tic_pit k)
unfolding tic_pit ◌>>=◌
tic_pit-Scheduled me k runs elected due =
    let now : ((ticked k).time_count % schedfreq == 0) ≡ true = ground arith in
    let k1 = with_process me (set_state State.activable (k.process_at me)) (ticked k) in
    let is_mine : is_elected (k.process_at me).state ≡ true = rw elected refl in
    rw (now, runs.here, is_mine)
      (rw (queue_add-ok me Head.activable_list k1 (ground (arith, runs.free))) (
        Ends-then _ _ (scheduler Resume.preempted (yielding me (ticked k))) (λ _. pure true)
          (scheduler-Scheduled Resume.preempted me (yielding me (ticked k))
            (yielding-CanSchedule me (ticked k) (ticked-Runs me k runs)))
          (λ _ k' (new, s).
            (refl, (new, s, yielding-StillMayRun Resume.preempted me new (ticked k) k' s)))))
