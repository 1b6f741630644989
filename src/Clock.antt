-- ===== src/Clock.antt =====
-- kernel/time.c: the clock interrupt and `wait_clock`, without what is drawn on the screen.
pub mod Day
pub mod Preemption
use nebulea_os.Base.{ℕ, ◌/◌, ◌%◌, Bool, true, false, ◌==◌, if◌then◌else◌}
use nebulea_os.Base.Int.{pos}
use nebulea_os.Kernel.Types.{State, Head, Resume, is_elected}
use nebulea_os.Kernel.Exec.{
  count_tick, Exec, ok, ◌>>=◌, ◌>>◌, pure, gets, current, get_process, modify_process, Reply,
  switched,
}
use nebulea_os.Kernel.Lists.{list_of, queue_add}
use nebulea_os.Process.Scheduler.{set_state, scheduler}

-- `h`, `m` and `s`, each a `uint8_t`.
pub record Time : Type 0 where
  pub h : ℕ
  pub m : ℕ
  pub s : ℕ

-- The time of day at a count of ticks.
unfoldable pub time_at : (clock_frequency time_count : ℕ) → Time
time_at f t = record {
  h = t / f / 3600 % 256;
  m = t / f % 3600 / 60 % 256;
  s = t / f % 3600 % 60 % 256;
}

-- The time that is shown changes once in a second.
unfoldable pub show_time : (clock_frequency time_count : ℕ) → Time → Time
show_time f t shown = if t % f == 0 then time_at f t else shown

abbrev pub schedfreq : ℕ
schedfreq = 5

-- `tic_PIT`; the answer says whether the scheduler was called.
unfoldable pub tic_pit : Exec Bool
tic_pit = do
  count_tick
  now ← gets (λ k. k.time_count)
  if now % schedfreq == 0
      then (do
        me ← current
        p ← get_process me
        if is_elected p.state
            then (modify_process me (set_state State.activable) >> queue_add me Head.activable_list)
            else pure tt
        scheduler Resume.preempted
        pure true)
      else pure false

-- `wait_clock`: the current process sleeps until `__wakeup_process` finds its date reached.
unfoldable pub wait_clock : ℕ → Exec Reply
wait_clock wakeup = do
  me ← current
  modify_process me (λ p. record p { state = State.asleep; wakeup_date = wakeup })
  scheduler (Resume.returning (pos 0))
  pure switched
