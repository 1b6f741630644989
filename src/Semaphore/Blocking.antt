-- ===== src/Semaphore/Blocking.antt =====
-- `wait` of kernel/semaphore.c where the caller has to wait.
use nebulea_os.Base.{ℕ, ◌≤◌, ◌≡◌, ◌≢◌, refl, ◌∙◌, true, false, none, some, arith, update}
use nebulea_os.Base.Int.{pos, pos_part, neg_part, leb_ℤ, ltb_ℤ, ◌-ℤ◌, to_short_self}
use nebulea_os.Kernel.Types.{Ref, Head, State, Resume, Process, Kernel}
use nebulea_os.Kernel.Exec.{◌>>=◌, pure, on_option, switched, modify_process}
use nebulea_os.Kernel.Lists.{queue_add, priority_of}
use nebulea_os.Kernel.Keeps.{After, at}
use nebulea_os.Kernel.Ends.{Ends, Ends-then}
use nebulea_os.Kernel.Chained.{Chained, queue_add-Chained, modify_process-Chained}
use nebulea_os.Kernel.Frames.{Chained-same}
use nebulea_os.Kernel.Steps.{with_process, added, queue_add-ok}
use nebulea_os.Queue.Counts.{count, count-insert}
use nebulea_os.Process.Scheduler.{scheduler}
use nebulea_os.Process.Scheduler.Electing.{CanSchedule, Scheduled, scheduler-Scheduled}
use nebulea_os.Process.Scheduler.Calling.{Runs}
use nebulea_os.Semaphore.Table.{find_semaphore}
use nebulea_os.Semaphore.Counting.{wait, wait_at, sub_count, lowest}

abbrev in_sem_for : ℕ → Process → Process
in_sem_for sem p = record p { state = State.in_sem; waited_sem = sem }

-- The state in which `wait` calls the scheduler: the count is one less, and the caller is in the
-- list of the semaphore.
abbrev counted_down : Ref → Kernel → Kernel
counted_down s k = record k {
  semaphore_at = update k.semaphore_at s (sub_count (k.semaphore_at s));
}

abbrev pub blocked : (sem : ℕ) (s me : Ref) → Kernel → Kernel
blocked sem s me k =
    added me (Head.semaphore_waiters s)
      (with_process me (in_sem_for sem (k.process_at me)) (counted_down s k))

-- After `wait`: the count is one less, and the caller does not run, but waits for the semaphore in
-- its list.
pub record Waits (sem : ℕ) (s me : Ref) (k : Kernel) (new : Ref) (k' : Kernel) : Type 0 where
  pub other : me ≢ new
  pub count_less : (k'.semaphore_at s).count ≡ (k.semaphore_at s).count -ℤ pos 1
  pub state : (k'.process_at me).state ≡ State.in_sem
  pub waited : (k'.process_at me).waited_sem ≡ sem
  pub link : (k'.process_at me).link ≡ some (Head.semaphore_waiters s)
  pub listed : count me (k'.lists (Head.semaphore_waiters s)) ≡ 1
  pub others_listed :
      (r : Ref)
      → r ≢ me
      → count r (k'.lists (Head.semaphore_waiters s)) ≡ count r (k.lists (Head.semaphore_waiters s))

Scheduled-Waits :
    (sem : ℕ) (s me : Ref) (k : Kernel) (new : Ref) (k' : Kernel)
    → Chained (blocked sem s me k)
    → (sub_count (k.semaphore_at s)).count ≡ (k.semaphore_at s).count -ℤ pos 1
    → Scheduled (Resume.semaphore_waiting s) me (blocked sem s me k) new k'
    → Waits sem s me k new k'
Scheduled-Waits sem s me k new k' c less done =
    let b : Kernel = blocked sem s me k in
    let k1 : Kernel = with_process me (in_sem_for sem (k.process_at me)) (counted_down s k) in
    let linked : (b.process_at me).link ≡ some (Head.semaphore_waiters s) = ground arith in
    let sleeps : (b.process_at me).state ≡ State.in_sem = ground arith in
    let apart : me ≢ new =
      λ e. ground (arith, done.chosen, c.counted me Head.activable_list, linked, sleeps, e) in
    record {
      other = apart;
      count_less = ground (arith, done.semaphores, less);
      state = ground (arith, done.each me apart, sleeps);
      waited = done.waited me ∙ ground arith;
      link = ground (arith, done.each me apart, sleeps, linked, c.counted me Head.finished_list);
      listed = ground (
        arith,
        done.still_chained.counted me (Head.semaphore_waiters s),
        done.each me apart,
        sleeps,
        linked,
        c.counted me Head.finished_list,
      );
      others_listed = λ r ne. ground (
        arith,
        done.lists (Head.semaphore_waiters s) refl refl,
        count-insert (priority_of k1) me (k.lists (Head.semaphore_waiters s)) r,
      );
    }

blocked-CanSchedule :
    (sem : ℕ) (s me : Ref) (k : Kernel)
    → Runs me k
    → ((r : Ref) × (count r (k.lists Head.activable_list) ≢ 0))
    → CanSchedule me (blocked sem s me k)
unfolding modify_process
blocked-CanSchedule sem s me k runs ready =
    let k0 : Kernel = counted_down s k in
    let k1 : Kernel = with_process me (in_sem_for sem (k.process_at me)) k0 in
    let c1 : Chained k1 =
      at (modify_process-Chained me (in_sem_for sem) (λ p. (refl, refl))) k0
        (Chained-same k k0 refl refl runs.chained) in
    let free1 : (k1.process_at me).link ≡ none = ground (arith, runs.free) in
    let chained2 : After Chained (queue_add me (Head.semaphore_waiters s) k1) =
      at (queue_add-Chained me (Head.semaphore_waiters s)) k1 c1 in
    record {
      chained = rw (queue_add-ok me (Head.semaphore_waiters s) k1 free1) at chained2;
      sleepers = λ r e. ground (arith, runs.sleepers r);
      none_finished = λ r m. ground (arith, runs.none_finished r);
      here = runs.here;
      ready = ready;
    }

-- Where links and lists agree, no sleeping process is in a list, no finished one has the current
-- pid, the current process is in no list and some process is activable, wait on a valid semaphore
-- whose count is from -32766 to 0 does not fault: the scheduler elects another process, as in
-- Process.Scheduler.Electing; the count is one less, the caller is in the state IN_SEM, waits for
-- that semaphore and is in its list, and the others that were in that list still are.
pub wait-Scheduled :
    (sem : ℕ) (s me : Ref) (k : Kernel)
    → find_semaphore (pos sem) k ≡ some s
    → Runs me k
    → pos_part (k.semaphore_at s).count ≡ 0
    → neg_part (k.semaphore_at s).count ≤ 32766
    → ((r : Ref) × (count r (k.lists Head.activable_list) ≢ 0))
    → Ends
        (λ r k'.
          (r ≡ switched)
          × ((new : Ref) × Scheduled (Resume.semaphore_waiting s) me (blocked sem s me k) new k'
              × Waits sem s me k new k'))
        (wait (pos sem) k)
unfolding wait wait_at modify_process on_option ◌>>=◌
wait-Scheduled sem s me k found runs zero_or_less above ready =
    let fits : leb_ℤ (k.semaphore_at s).count lowest ≡ false = ground arith in
    let less : (sub_count (k.semaphore_at s)).count ≡ (k.semaphore_at s).count -ℤ pos 1 =
      to_short_self ((k.semaphore_at s).count -ℤ pos 1) (ground arith) (ground arith) in
    let below : ltb_ℤ (sub_count (k.semaphore_at s)).count (pos 0) ≡ true =
      rw less (ground arith) in
    let now : update k.semaphore_at s (sub_count (k.semaphore_at s)) s
        ≡ sub_count (k.semaphore_at s) =
      ground arith in
    let k1 : Kernel = with_process me (in_sem_for sem (k.process_at me)) (counted_down s k) in
    let can : CanSchedule me (blocked sem s me k) = blocked-CanSchedule sem s me k runs ready in
    rw (found, fits, now, below, runs.here)
      (rw (queue_add-ok me (Head.semaphore_waiters s) k1 (ground (arith, runs.free))) (
        Ends-then _ _ (scheduler (Resume.semaphore_waiting s) (blocked sem s me k))
          (λ _. pure switched)
          (scheduler-Scheduled (Resume.semaphore_waiting s) me (blocked sem s me k) can)
          (λ _ k' (new, done).
            (refl, (new, done, Scheduled-Waits sem s me k new k' can.chained less done)))))
