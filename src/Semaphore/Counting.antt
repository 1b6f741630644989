-- ===== src/Semaphore/Counting.antt =====
-- `signal`, `signaln`, `try_wait` and `wait` of kernel/semaphore.c. A function that switches the
-- context ends in `switched`; what `wait` does when it is switched back to is in Resume.
use nebulea_os.Base.{ℕ, zero, suc, Bool, false, ◌&&◌, if◌then◌else◌}
use nebulea_os.Base.Int.{ℤ, pos, negsuc, minus_one, leb_ℤ, ltb_ℤ, ◌+ℤ◌, ◌-ℤ◌, to_short, pos_part}
use nebulea_os.Kernel.Types.{Ref, State, Head, Resume, Semaphore, semaphore_max_size}
use nebulea_os.Kernel.Exec.{
  on_option, Exec, ◌>>=◌, ◌>>◌, pure, gets, current, modify_process, modify_semaphore, Reply,
  switched, reply,
}
use nebulea_os.Kernel.Lists.{queue_add}
use nebulea_os.Process.Scheduler.{scheduler, yield_cpu}
use nebulea_os.Semaphore.Table.{find_semaphore, wake_waiter}

-- `s->count++` and `s->count--`
abbrev pub add_count : Semaphore → Semaphore
add_count s = record s { count = to_short (s.count +ℤ pos 1) }

abbrev pub sub_count : Semaphore → Semaphore
sub_count s = record s { count = to_short (s.count -ℤ pos 1) }

abbrev pub set_reset : Bool → Semaphore → Semaphore
set_reset b s = record s { was_reset = b }

-- `signal` on a valid semaphore.
unfoldable pub signal_at : Ref → Exec Reply
signal_at ref = do
  s ← gets (λ k. k.semaphore_at ref)
  if leb_ℤ (pos semaphore_max_size) s.count then reply (negsuc 1) else do
    modify_semaphore ref add_count
    s ← gets (λ k. k.semaphore_at ref)
    if leb_ℤ s.count (pos 0)
        then (do
          modify_semaphore ref (set_reset false)
          wake_waiter (Head.semaphore_waiters ref)
          yield_cpu (Resume.returning (pos 0))
          pure switched)
        else reply (pos 0)

unfoldable pub signal : ℤ → Exec Reply
signal sem = do
  found ← gets (find_semaphore sem)
  on_option found (reply minus_one) (λ s. signal_at s)

-- The loop of `signaln`.
unfoldable pub signal_times : Ref → ℕ → Exec (Unit {0})
signal_times ref zero = pure tt
signal_times ref (suc n) = do
  modify_semaphore ref add_count
  s ← gets (λ k. k.semaphore_at ref)
  if leb_ℤ s.count (pos 0) then wake_waiter (Head.semaphore_waiters ref) else pure tt
  signal_times ref n

-- `signaln` on a valid semaphore, with a count that is not negative.
unfoldable pub signaln_at : Ref → ℕ → Exec Reply
signaln_at ref n = do
  s ← gets (λ k. k.semaphore_at ref)
  if ltb_ℤ (pos semaphore_max_size) (s.count +ℤ pos n) then reply (negsuc 1) else do
    modify_semaphore ref (set_reset false)
    signal_times ref n
    yield_cpu (Resume.returning (pos 0))
    pure switched

abbrev pub signaln_count : Ref → ℤ → Exec Reply
signaln_count ref (negsuc _) = reply (negsuc 1)
signaln_count ref (pos n) = signaln_at ref n

unfoldable pub signaln : ℤ → ℤ → Exec Reply
signaln sem count = do
  found ← gets (find_semaphore sem)
  on_option found (reply minus_one) (λ s. signaln_count s count)

-- `-SEMAPHORE_MAX_SIZE`
abbrev pub lowest : ℤ
lowest = negsuc 32766

unfoldable pub try_wait : ℤ → Exec Reply
try_wait sem = do
  found ← gets (find_semaphore sem)
  on_option found (reply minus_one) (λ ref. do
    s ← gets (λ k. k.semaphore_at ref)
    if leb_ℤ s.count lowest && leb_ℤ lowest s.count
        then reply (negsuc 1)
        else if ltb_ℤ (pos 0) s.count
        then (modify_semaphore ref sub_count >> reply (pos 0))
        else reply (negsuc 2))

-- `wait` on a valid semaphore, up to the call of the scheduler.
unfoldable pub wait_at : (sem : ℕ) → Ref → Exec Reply
wait_at sem ref = do
  s ← gets (λ k. k.semaphore_at ref)
  if leb_ℤ s.count lowest then reply (negsuc 1) else do
    modify_semaphore ref sub_count
    s ← gets (λ k. k.semaphore_at ref)
    if ltb_ℤ s.count (pos 0)
        then (do
          me ← current
          modify_process me (λ p. record p { state = State.in_sem; waited_sem = sem })
          queue_add me (Head.semaphore_waiters ref)
          scheduler (Resume.semaphore_waiting ref)
          pure switched)
        else reply (pos 0)

unfoldable pub wait : ℤ → Exec Reply
wait sem = do
  found ← gets (find_semaphore sem)
  on_option found (reply minus_one) (λ s. wait_at (pos_part sem) s)
