-- ===== src/Semaphore/Balance/Waking.antt =====
-- `signal`, `signaln`, `try_wait` and `wait` of kernel/semaphore.c, and the balance between the
-- count of a semaphore and the number of processes that wait at it.
use nebulea_os.Base.{
  ℕ, zero, suc, ◌+◌, ◌≤◌, ◌<◌, ◌≡◌, refl, false, ◌&&◌, arith, update, Bool-cases, Option-cases, inl,
  inr,
}
use nebulea_os.Base.Int.{ℤ, pos, negsuc, pos_part, neg_part, leb_ℤ, ltb_ℤ, ◌+ℤ◌, ◌-ℤ◌}
use nebulea_os.Kernel.Types.{Ref, Head, State, Resume, Semaphore, Kernel, semaphore_max_size}
use nebulea_os.Kernel.Exec.{
  Exec, Outcome, ok, fail, ◌>>=◌, ◌>>◌, on_option, and_then, pure, switched,
}
use nebulea_os.Kernel.Lists.{queue_add, queue_out, link_into, unlink_top}
use nebulea_os.Kernel.Keeps.{Keeps, After, keeps, at, After-then}
use nebulea_os.Queue.{top}
use nebulea_os.Process.Scheduler.{scheduler, yield_cpu}
use nebulea_os.Semaphore.Table.{wake_waiter, find_semaphore}
use nebulea_os.Semaphore.Counting.{
  add_count, sub_count, set_reset, lowest, signal_at, signal_times, signaln_at, signaln_count,
  signaln, signal, try_wait, wait_at, wait,
}
use nebulea_os.Semaphore.Balance.{
  IsBalanced, balanced_rules, scheduler-IsBalanced, yield_cpu-IsBalanced,
}
use nebulea_os.Semaphore.Balance.Recounting.{
  with_semaphore, eq_refl, wake_waiter-IsBalanced, enqueue-then, counted-IsBalanced,
  add_count-count, sub_count-count,
}

try_wait-IsBalanced : (sem : ℤ) → Keeps IsBalanced (try_wait sem)
unfolding try_wait on_option ◌>>=◌
try_wait-IsBalanced sem = keeps λ k b. elim (Option-cases (find_semaphore sem k)) [
  | inl absent ↦ rw (absent, on_option) b
  | inr (ref, found) ↦
      rw (found, on_option)
        (let s : Semaphore = k.semaphore_at ref in
          elim (Bool-cases (leb_ℤ s.count lowest && leb_ℤ lowest s.count)) [
            | inl low ↦ rw low b
            | inr fits ↦ rw fits (elim (Bool-cases (ltb_ℤ (pos 0) s.count)) [
              | inl some_left ↦ rw some_left (
                  counted-IsBalanced k ref (sub_count s) b
                    (rw (sub_count-count s (b.balanced ref).high (b.balanced ref).low)
                      (ground arith))
                    (rw (sub_count-count s (b.balanced ref).high (b.balanced ref).low)
                      (ground (arith, (b.balanced ref).high))))
              | inr none_left ↦ rw none_left b
            ])
          ])
]

wait_at-IsBalanced : (sem : ℕ) (ref : Ref) → Keeps IsBalanced (wait_at sem ref)
unfolding wait_at on_option ◌>>=◌
wait_at-IsBalanced sem ref = keeps λ k b.
    let s : Semaphore = k.semaphore_at ref in
    elim (Bool-cases (leb_ℤ s.count lowest)) [
      | inl low ↦ rw low b
      | inr fits ↦
          rw (fits, eq_refl ref)
            (let less : (sub_count s).count ≡ s.count -ℤ pos 1 =
                sub_count-count s (b.balanced ref).high (b.balanced ref).low in
              elim (Bool-cases (ltb_ℤ (sub_count s).count (pos 0))) [
                | inl below ↦ rw below (elim (Option-cases (k.process_table k.current_pid)) [
                  | inl gone ↦ rw gone tt
                  | inr (me, there) ↦ rw there (
                      enqueue-then k ref me (sub_count s)
                        (λ p. record p { state = State.in_sem; waited_sem = sem })
                        (λ p. (refl, refl)) b (rw less (ground (arith, less)))
                        (rw less (ground (arith, less))) (rw less (ground (arith, less)))
                        (scheduler (Resume.semaphore_waiting ref) >> pure switched)
                        (search (balanced_rules, scheduler-IsBalanced)))
                ])
                | inr above ↦ rw above (
                    counted-IsBalanced k ref (sub_count s) b (rw less (ground (arith, less)))
                      (rw less (ground (arith, (b.balanced ref).high))))
              ])
    ]

wait-IsBalanced : (sem : ℤ) → Keeps IsBalanced (wait sem)
unfolding wait
wait-IsBalanced sem = search (balanced_rules, wait_at-IsBalanced)

signal_at-IsBalanced : (ref : Ref) → Keeps IsBalanced (signal_at ref)
unfolding signal_at on_option ◌>>=◌
signal_at-IsBalanced ref = keeps λ k b.
    let s : Semaphore = k.semaphore_at ref in
    elim (Bool-cases (leb_ℤ (pos semaphore_max_size) s.count)) [
      | inl full ↦ rw full b
      | inr fits ↦
          rw (fits, eq_refl ref)
            (let more : (add_count s).count ≡ s.count +ℤ pos 1 =
                add_count-count s (ground arith) (b.balanced ref).low in
              elim (Bool-cases (leb_ℤ (add_count s).count (pos 0))) [
                | inl some_wait ↦ rw some_wait (
                    After-then (wake_waiter (Head.semaphore_waiters ref) _)
                      (λ _. yield_cpu (Resume.returning (pos 0)) >> pure switched)
                      (wake_waiter-IsBalanced k ref (s.count +ℤ pos 1) _ b
                        (λ s'. ground (arith, more)) (ground (arith, more)) (ground (arith, more)))
                      (λ _. search (balanced_rules, yield_cpu-IsBalanced)))
                | inr none_wait ↦ rw none_wait (
                    counted-IsBalanced k ref (add_count s) b (rw more (ground (arith, more)))
                      (rw more (ground (arith, more))))
              ])
    ]

signal-IsBalanced : (sem : ℤ) → Keeps IsBalanced (signal sem)
unfolding signal
signal-IsBalanced sem = search (balanced_rules, signal_at-IsBalanced)

After-next :
    {A B : Type 0} (P Q : Kernel → Type 0) (o : Outcome A) (f : A → Exec B)
    → After P o
    → ((a : A) (k : Kernel) → P k → After Q (f a k))
    → After Q (and_then o f)
After-next P Q (ok a k) f h next = next a k h
After-next P Q (fail e) f h next = tt

After-both :
    {A : Type 0} (P Q : Kernel → Type 0) (o : Outcome A)
    → After P o
    → After Q o
    → After (λ k. P k × Q k) o
After-both P Q (ok a k) p q = (p, q)
After-both P Q (fail e) p q = tt

wake_waiter-semaphores :
    (h : Head) (k : Kernel) → After (λ k'. k'.semaphore_at ≡ k.semaphore_at) (wake_waiter h k)
unfolding wake_waiter queue_out unlink_top queue_add link_into on_option ◌>>=◌
wake_waiter-semaphores h k = elim (Option-cases (top (k.lists h))) [
  | inl empty ↦ rw (empty, on_option) tt
  | inr (r, out) ↦ rw (out, on_option) (rw (eq_refl r, on_option) refl)
]

-- A number of calls fits the count of a semaphore.
abbrev Fits : Ref → ℕ → Kernel → Type 0
Fits ref n k = pos_part (k.semaphore_at ref).count + n ≤ 32767 + neg_part (k.semaphore_at ref).count

one_fits : (z : ℤ) (n : ℕ) → pos_part z + suc n ≤ 32767 + neg_part z → pos_part z < 32767
one_fits (pos m) n h = omega arith
one_fits (negsuc m) n h = omega arith

more_fit :
    (z : ℤ) (n : ℕ)
    → pos_part z + suc n ≤ 32767 + neg_part z
    → pos_part (z +ℤ pos 1) + n ≤ 32767 + neg_part (z +ℤ pos 1)
more_fit z n h = ground arith

signal_times-IsBalanced :
    (ref : Ref) (n : ℕ) (k : Kernel)
    → IsBalanced k
    → Fits ref n k
    → After IsBalanced (signal_times ref n k)
unfolding signal_times ◌>>=◌
signal_times-IsBalanced ref zero k b h = b
signal_times-IsBalanced ref (suc n) k b h =
    let s : Semaphore = k.semaphore_at ref in
    let more : (add_count s).count ≡ s.count +ℤ pos 1 =
      add_count-count s (one_fits s.count n h) (b.balanced ref).low in
    rw (eq_refl ref) (elim (Bool-cases (leb_ℤ (add_count s).count (pos 0))) [
      | inl some_wait ↦ rw some_wait (
          After-next
            (λ k'. IsBalanced k' × (k'.semaphore_at ≡ update k.semaphore_at ref (add_count s)))
            IsBalanced (wake_waiter (Head.semaphore_waiters ref) _) (λ _. signal_times ref n)
            (After-both _ _ _
              (wake_waiter-IsBalanced k ref (s.count +ℤ pos 1) _ b (λ s'. ground (arith, more))
                (ground (arith, more)) (ground (arith, more)))
              (wake_waiter-semaphores (Head.semaphore_waiters ref)
                (with_semaphore ref (add_count s) k)))
            (λ _ k' (b', same).
              signal_times-IsBalanced ref n k' b'
                (rw same (rw (eq_refl ref, more) (more_fit s.count n h)))))
      | inr none_wait ↦ rw none_wait (
          signal_times-IsBalanced ref n (with_semaphore ref (add_count s) k)
            (counted-IsBalanced k ref (add_count s) b (rw more (ground (arith, more)))
              (rw more (ground (arith, more))))
            (rw (eq_refl ref, more) (more_fit s.count n h)))
    ])

fits_all :
    (z : ℤ) (n : ℕ)
    → ltb_ℤ (pos semaphore_max_size) (z +ℤ pos n) ≡ false
    → pos_part z + n ≤ 32767 + neg_part z
fits_all (pos m) n h = ground arith
fits_all (negsuc m) n h = ground arith

signaln_count-IsBalanced : (ref : Ref) (count : ℤ) → Keeps IsBalanced (signaln_count ref count)
unfolding signaln_at on_option ◌>>=◌
signaln_count-IsBalanced ref (negsuc n) = search balanced_rules
signaln_count-IsBalanced ref (pos n) = keeps λ k b.
    let s : Semaphore = k.semaphore_at ref in
    elim (Bool-cases (ltb_ℤ (pos semaphore_max_size) (s.count +ℤ pos n))) [
      | inl full ↦ rw full b
      | inr fits ↦ rw fits (
          After-then (signal_times ref n (with_semaphore ref (set_reset false s) k))
            (λ _. yield_cpu (Resume.returning (pos 0)) >> pure switched)
            (signal_times-IsBalanced ref n (with_semaphore ref (set_reset false s) k)
              (counted-IsBalanced k ref (set_reset false s) b refl (b.balanced ref).high)
              (rw (eq_refl ref) (fits_all s.count n fits)))
            (λ _. search (balanced_rules, yield_cpu-IsBalanced)))
    ]

signaln-IsBalanced : (sem count : ℤ) → Keeps IsBalanced (signaln sem count)
unfolding signaln
signaln-IsBalanced sem count = search (balanced_rules, signaln_count-IsBalanced)

-- In a state where links and lists agree and every semaphore is balanced, with as many processes
-- in its list as its count says below zero and the count between -32767 and 32767, each of wait,
-- signal, signaln and try_wait faults or ends in such a state, whatever the scheduler does in
-- them.
pub semaphore_calls-IsBalanced :
    (sem count : ℤ) (k : Kernel)
    → IsBalanced k
    → After IsBalanced (wait sem k)
      × After IsBalanced (signal sem k)
      × After IsBalanced (signaln sem count k)
      × After IsBalanced (try_wait sem k)
semaphore_calls-IsBalanced sem count k b = (
  at (wait-IsBalanced sem) k b,
  at (signal-IsBalanced sem) k b,
  at (signaln-IsBalanced sem count) k b,
  at (try_wait-IsBalanced sem) k b,
)
