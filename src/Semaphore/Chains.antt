-- ===== src/Semaphore/Chains.antt =====
-- The functions of kernel/semaphore.c, and the agreement of links and lists.
use nebulea_os.Base.{ℕ, zero, suc, ◌≡◌, refl, some, [], Bool-cases, Option-cases, inl, inr, update}
use nebulea_os.Base.Int.{ℤ, pos, negsuc, ltb_ℤ}
use nebulea_os.Kernel.Types.{Ref, Head, Kernel}
use nebulea_os.Kernel.Lists.{set_list}
use nebulea_os.Kernel.Exec.{value, reply, on_option, ◌>>=◌}
use nebulea_os.Kernel.Keeps.{Keeps, After, After-then, Keeps-pure}
use nebulea_os.Kernel.Chained.{Chained, set_list-Chained}
use nebulea_os.Kernel.Frames.{chained_rules, Chained-same}
use nebulea_os.Process.Chains.Scheduling.{scheduler-Chained, yield_cpu-Chained}
use nebulea_os.Semaphore.Table.{
  get_free_sem, new_semaphore, screate, wake_waiter, wake_all, nb_waiting_proc2, sdelete, sreset,
  scount,
}
use nebulea_os.Semaphore.Counting.{
  signal_at, signal, signal_times, signaln_at, signaln_count, signaln, try_wait, wait_at, wait,
}

pub wake_waiter-Chained : (h : Head) → Keeps Chained (wake_waiter h)
unfolding wake_waiter
wake_waiter-Chained h = search chained_rules depth 14

wake_all-Chained : (h : Head) (n : ℕ) → Keeps Chained (wake_all h n)
unfolding wake_all
wake_all-Chained h zero = search chained_rules
wake_all-Chained h (suc n) = search (chained_rules, wake_waiter-Chained, wake_all-Chained h n)

nb_waiting_proc2-Chained : (sem : ℕ) → Keeps Chained (nb_waiting_proc2 sem)
unfolding nb_waiting_proc2
nb_waiting_proc2-Chained sem = search chained_rules depth 10

pub sdelete-Chained : (sem : ℤ) → Keeps Chained (sdelete sem)
unfolding sdelete
sdelete-Chained sem =
    search (chained_rules, wake_all-Chained, nb_waiting_proc2-Chained, yield_cpu-Chained) depth 24

pub sreset-Chained : (sem count : ℤ) → Keeps Chained (sreset sem count)
unfolding sreset
sreset-Chained sem count = search (chained_rules, wake_all-Chained, yield_cpu-Chained) depth 20

signal_at-Chained : (s : Ref) → Keeps Chained (signal_at s)
unfolding signal_at
signal_at-Chained s = search (chained_rules, wake_waiter-Chained, yield_cpu-Chained) depth 24

pub signal-Chained : (sem : ℤ) → Keeps Chained (signal sem)
unfolding signal
signal-Chained sem = search (chained_rules, signal_at-Chained)

signal_times-Chained : (s : Ref) (n : ℕ) → Keeps Chained (signal_times s n)
unfolding signal_times
signal_times-Chained s zero = search chained_rules
signal_times-Chained s (suc n) =
    search (chained_rules, wake_waiter-Chained, signal_times-Chained s n) depth 14

signaln_count-Chained : (s : Ref) (count : ℤ) → Keeps Chained (signaln_count s count)
unfolding signaln_at
signaln_count-Chained s (pos n) =
    search (chained_rules, signal_times-Chained, yield_cpu-Chained) depth 16
signaln_count-Chained s (negsuc n) = search chained_rules

pub signaln-Chained : (sem count : ℤ) → Keeps Chained (signaln sem count)
unfolding signaln
signaln-Chained sem count = search (chained_rules, signaln_count-Chained)

pub try_wait-Chained : (sem : ℤ) → Keeps Chained (try_wait sem)
unfolding try_wait
try_wait-Chained sem = search chained_rules depth 14

wait_at-Chained : (sem : ℕ) (s : Ref) → Keeps Chained (wait_at sem s)
unfolding wait_at
wait_at-Chained sem s = search (chained_rules, scheduler-Chained) depth 26

pub wait-Chained : (sem : ℤ) → Keeps Chained (wait sem)
unfolding wait
wait-Chained sem = search (chained_rules, wait_at-Chained)

pub scount-Chained : (sem : ℤ) → Keeps Chained (scount sem)
unfolding scount
scount-Chained sem = search chained_rules depth 10

-- A list that is empty may be initialised; so is that of memory that the allocator hands over.
pub screate-Chained :
    (new : Ref) (count : ℤ) (k : Kernel)
    → Chained k
    → k.lists (Head.semaphore_waiters new) ≡ []
    → After Chained (screate new count k)
unfolding screate on_option ◌>>=◌
screate-Chained new count k c empty = elim (Option-cases (get_free_sem k)) [
  | inl full ↦ rw (full, on_option) c
  | inr (sid, free) ↦
      rw (free, on_option)
        (elim (Bool-cases (ltb_ℤ count (pos 0))) [
          | inl bad ↦ rw bad c
          | inr good ↦ rw good (
              let k' : Kernel = record k {
                semaphore_at = update k.semaphore_at new (new_semaphore sid count);
                semaphore_table = update k.semaphore_table sid (some new);
              } in
              After-then (set_list (Head.semaphore_waiters new) [] k') (λ _. reply (pos sid))
                (set_list-Chained (Head.semaphore_waiters new) k' empty
                  (Chained-same k k' refl refl c))
                (λ _. Keeps-pure (value (pos sid))))
        ])
]
