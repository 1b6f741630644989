-- ===== src/Clock/Day.antt =====
-- The time of day of kernel/time.c as a number of seconds.
use nebulea_os.Base.{ℕ, ◌+◌, ◌*◌, ◌/◌, ◌%◌, ◌<◌, ◌≡◌, arith}
use nebulea_os.Clock.{Time, time_at}

-- The seconds that a time of day stands for.
abbrev pub seconds : Time → ℕ
seconds t = t.h * 3600 + t.m * 60 + t.s

of_seconds :
    (d : ℕ)
    → d < 921600
    → (d / 3600 % 256 * 3600 + d % 3600 / 60 % 256 * 60 + d % 3600 % 60 % 256 ≡ d)
      × (d % 3600 / 60 % 256 < 60)
      × (d % 3600 % 60 % 256 < 60)
of_seconds d h = (omega arith, omega arith, omega arith)

-- Below 256 hours of ticks, the time of day that is shown is the number of whole seconds since
-- the start, with minutes and seconds below 60.
pub seconds-time_at :
    (f t : ℕ)
    → t / f < 921600
    → (seconds (time_at f t) ≡ t / f) × ((time_at f t).m < 60) × ((time_at f t).s < 60)
unfolding time_at
seconds-time_at f t h = of_seconds (t / f) h
