-- ===== src/Process/Scheduler/Calling.antt =====
-- The calls of `__scheduler` by a process that runs: where it stays activable, and where it sleeps
-- in `wait_clock`.
use nebulea_os.Base.{ℕ, ◌≡◌, ◌≢◌, ◌⊎◌, inl, inr, ◌==◌, Bool-cases, refl, none, some, arith}
use nebulea_os.Base.Int.{pos}
use nebulea_os.Kernel.Types.{Ref, Head, State, Resume, Process, Kernel}
use nebulea_os.Kernel.Exec.{◌>>=◌, modify_process, switched, pure}
use nebulea_os.Kernel.Lists.{priority_of, queue_add}
use nebulea_os.Kernel.Keeps.{After, at}
use nebulea_os.Kernel.Ends.{Ends, Ends-then, Ends-mono}
use nebulea_os.Kernel.Steps.{with_process, added, queue_add-ok}
use nebulea_os.Kernel.Chained.{Chained, queue_add-Chained, modify_process-Chained}
use nebulea_os.Queue.Counts.{count, count-insert}
use nebulea_os.Process.Scheduler.{set_state, scheduler, yield_cpu}
use nebulea_os.Process.Scheduler.Freeing.{NoneHas}
use nebulea_os.Process.Scheduler.Waking.{SleepersFree}
use nebulea_os.Process.Scheduler.Electing.{CanSchedule, Scheduled, scheduler-Scheduled}
use nebulea_os.Clock.{wait_clock}

-- A process runs that is in no list.
pub record Runs (me : Ref) (k : Kernel) : Type 0 where
  pub chained : Chained k
  pub sleepers : SleepersFree k
  pub none_finished : NoneHas k.current_pid k (k.lists Head.finished_list)
  pub here : k.process_table k.current_pid ≡ some me
  pub free : (k.process_at me).link ≡ none

-- The state in which `yield_cpu` calls the scheduler.
abbrev pub yielding : Ref → Kernel → Kernel
yielding me k =
    added me Head.activable_list (with_process me (set_state State.activable (k.process_at me)) k)

-- After an election: that process runs, or it is activable and in the list of those.
abbrev pub StillMayRun : Ref → Ref → Kernel → Type 0
StillMayRun me new k' =
    (me ≡ new)
    ⊎ (((k'.process_at me).state ≡ State.activable) × (count me (k'.lists Head.activable_list) ≢ 0))

pub Scheduled-StillMayRun :
    (resume : Resume) (old me new : Ref) (k k' : Kernel)
    → (k.process_at me).state ≡ State.activable
    → count me (k.lists Head.activable_list) ≢ 0
    → Scheduled resume old k new k'
    → StillMayRun me new k'
Scheduled-StillMayRun resume old me new k k' active listed s = elim (Bool-cases (me == new)) [
  | inl same ↦ inl (ground (arith, same))
  | inr other ↦
      let ne : me ≢ new = ground (arith, other) in
      inr (ground (arith, s.each me ne, active), s.candidates me listed ne)
]

pub yielding-listed :
    (me : Ref) (k : Kernel) → count me ((yielding me k).lists Head.activable_list) ≢ 0
yielding-listed me k =
    let k1 : Kernel = with_process me (set_state State.activable (k.process_at me)) k in
    ground (arith, count-insert (priority_of k1) me (k.lists Head.activable_list) me)

pub yielding-StillMayRun :
    (resume : Resume) (me new : Ref) (k k' : Kernel)
    → Scheduled resume me (yielding me k) new k'
    → StillMayRun me new k'
yielding-StillMayRun resume me new k k' s =
    Scheduled-StillMayRun resume me me new (yielding me k) k' (ground arith) (yielding-listed me k)
      s

abbrev asleep_at : ℕ → Process → Process
asleep_at date p = record p { state = State.asleep; wakeup_date = date }

-- The state in which `wait_clock` calls it.
abbrev pub sleeping : ℕ → Ref → Kernel → Kernel
sleeping date me k = with_process me (asleep_at date (k.process_at me)) k

pub yielding-CanSchedule : (me : Ref) (k : Kernel) → Runs me k → CanSchedule me (yielding me k)
unfolding modify_process
yielding-CanSchedule me k runs =
    let k1 : Kernel = with_process me (set_state State.activable (k.process_at me)) k in
    let c1 : Chained k1 =
      at (modify_process-Chained me (set_state State.activable) (λ p. (refl, refl))) k
        runs.chained in
    let free1 : (k1.process_at me).link ≡ none = ground (arith, runs.free) in
    let chained2 : After Chained (queue_add me Head.activable_list k1) =
      at (queue_add-Chained me Head.activable_list) k1 c1 in
    record {
      chained = rw (queue_add-ok me Head.activable_list k1 free1) at chained2;
      sleepers = λ r e. ground (arith, runs.sleepers r);
      none_finished = λ r m. ground (arith, runs.none_finished r);
      here = runs.here;
      ready = (me, yielding-listed me k);
    }

sleeping-CanSchedule :
    (date : ℕ) (me : Ref) (k : Kernel)
    → Runs me k
    → ((r : Ref) × (count r (k.lists Head.activable_list) ≢ 0))
    → CanSchedule me (sleeping date me k)
unfolding modify_process
sleeping-CanSchedule date me k runs ready = record {
  chained = at (modify_process-Chained me (asleep_at date) (λ p. (refl, refl))) k runs.chained;
  sleepers = λ r e. ground (arith, runs.sleepers r, runs.free);
  none_finished = λ r m. ground (arith, runs.none_finished r);
  here = runs.here;
  ready = ready;
}

-- Where links and lists agree, no sleeping process is in a list, no finished one has the current
-- pid and the current process is in no list, the end that chprio, signal, signaln, sreset,
-- pdelete and preset share does not fault: the current process becomes activable, the scheduler
-- elects from that state as in Process.Scheduler.Electing, and at the end the process that was
-- current is the elected one, or it is activable and in the list of those.
pub yield_cpu-Scheduled :
    (resume : Resume) (me : Ref) (k : Kernel)
    → Runs me k
    → Ends
        (λ _ k'. (new : Ref) × Scheduled resume me (yielding me k) new k' × StillMayRun me new k')
        (yield_cpu resume k)
unfolding yield_cpu modify_process ◌>>=◌
yield_cpu-Scheduled resume me k runs =
    let k1 : Kernel = with_process me (set_state State.activable (k.process_at me)) k in
    let free1 : (k1.process_at me).link ≡ none = ground (arith, runs.free) in
    rw (runs.here) (
      rw (queue_add-ok me Head.activable_list k1 free1) (
        Ends-mono _ _ (scheduler resume (yielding me k))
          (scheduler-Scheduled resume me (yielding me k) (yielding-CanSchedule me k runs))
          (λ _ k' (new, s). (new, s, yielding-StillMayRun resume me new k k' s))))

-- Where links and lists agree, no sleeping process is in a list, no finished one has the current
-- pid, the current process is in no list and some process is activable, wait_clock does not
-- fault: the current process sleeps with that date, and the scheduler elects from that state as
-- in Process.Scheduler.Electing.
pub wait_clock-Scheduled :
    (date : ℕ) (me : Ref) (k : Kernel)
    → Runs me k
    → ((r : Ref) × (count r (k.lists Head.activable_list) ≢ 0))
    → Ends
        (λ r k'.
          (r ≡ switched)
          × ((new : Ref) × Scheduled (Resume.returning (pos 0)) me (sleeping date me k) new k'))
        (wait_clock date k)
unfolding wait_clock modify_process ◌>>=◌
wait_clock-Scheduled date me k runs ready = rw (runs.here) (
    Ends-then _ _ (scheduler (Resume.returning (pos 0)) (sleeping date me k)) (λ _. pure switched)
      (scheduler-Scheduled (Resume.returning (pos 0)) me (sleeping date me k)
        (sleeping-CanSchedule date me k runs ready))
      (λ _ k' s. (refl, s)))
