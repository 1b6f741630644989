-- ===== src/Semaphore/Passing.antt =====
-- `signal` and `try_wait` of kernel/semaphore.c where nobody waits.
use nebulea_os.Base.{ℕ, ◌+◌, ◌<◌, ◌≡◌, refl, ◌∙◌, some, true, false, ◌&&◌, update, arith}
use nebulea_os.Base.Int.{ℤ, pos, negsuc, ltb_ℤ, leb_ℤ, to_short_self, ◌+ℤ◌, ◌-ℤ◌}
use nebulea_os.Kernel.Types.{Ref, Kernel, Semaphore, semaphore_max_size}
use nebulea_os.Kernel.Exec.{ok, value, ◌>>=◌, on_option}
use nebulea_os.Kernel.Ends.{Ends}
use nebulea_os.Semaphore.Table.{find_semaphore}
use nebulea_os.Semaphore.Counting.{signal, signal_at, try_wait, add_count, sub_count, lowest}

abbrev with_count : Ref → ℤ → Kernel → Kernel
with_count s c k = record k {
  semaphore_at = update k.semaphore_at s (record (k.semaphore_at s) { count = c });
}

same_update : (f : Ref → Semaphore) (r : Ref) (x : Semaphore) → update f r x r ≡ x
same_update f r x = ground arith

added_one :
    (s : Semaphore) (n : ℕ) → s.count ≡ pos n → n < 32767 → (add_count s).count ≡ pos (n + 1)
added_one s n e h =
    rw e (to_short_self (pos n +ℤ pos 1) (ground arith) (ground arith) ∙ ground arith)

taken_one :
    (s : Semaphore) (n : ℕ) → s.count ≡ pos (n + 1) → n < 32767 → (sub_count s).count ≡ pos n
taken_one s n e h =
    rw e (to_short_self (pos (n + 1) -ℤ pos 1) (ground arith) (ground arith) ∙ ground arith)

signal-ok :
    (sem : ℤ) (k : Kernel) (s : Ref) (n : ℕ)
    → find_semaphore sem k ≡ some s
    → (k.semaphore_at s).count ≡ pos n
    → n < 32767
    → signal sem k ≡ ok (value (pos 0)) (with_count s (pos (n + 1)) k)
unfolding signal signal_at ◌>>=◌ on_option
signal-ok sem k s n found e h =
    let fits : leb_ℤ (pos semaphore_max_size) (k.semaphore_at s).count ≡ false =
      rw e (ground arith) in
    let above : leb_ℤ (pos (n + 1)) (pos 0) ≡ false = ground arith in
    rw
      (
        found,
        fits,
        same_update k.semaphore_at s (add_count (k.semaphore_at s)),
        added_one (k.semaphore_at s) n e h,
        above,
      )
      refl

try_wait-ok :
    (sem : ℤ) (k : Kernel) (s : Ref) (n : ℕ)
    → find_semaphore sem k ≡ some s
    → (k.semaphore_at s).count ≡ pos (n + 1)
    → n < 32767
    → try_wait sem k ≡ ok (value (pos 0)) (with_count s (pos n) k)
unfolding try_wait ◌>>=◌ on_option
try_wait-ok sem k s n found e h =
    let fits : (leb_ℤ (k.semaphore_at s).count lowest && leb_ℤ lowest (k.semaphore_at s).count)
        ≡ false =
      rw e (ground arith) in
    let some_left : ltb_ℤ (pos 0) (k.semaphore_at s).count ≡ true = rw e (ground arith) in
    rw (found, fits, some_left, taken_one (k.semaphore_at s) n e h) refl

same_table :
    (sem : ℤ) (k k' : Kernel)
    → k'.semaphore_table ≡ k.semaphore_table
    → find_semaphore sem k' ≡ find_semaphore sem k
unfolding find_semaphore
same_table (negsuc n) k k' e = refl
same_table (pos n) k k' e = rw e refl

-- On a valid semaphore whose count is from 0 to 32766, signal and then try_wait both return 0
-- without a switch of the context; the count is one more in between and the same at the end.
pub signal-try_wait :
    (sem : ℤ) (k : Kernel) (s : Ref) (n : ℕ)
    → find_semaphore sem k ≡ some s
    → (k.semaphore_at s).count ≡ pos n
    → n < 32767
    → Ends
        (λ r k1.
          (r ≡ value (pos 0))
          × ((k1.semaphore_at s).count ≡ pos (n + 1))
          × Ends
              (λ r' k2. (r' ≡ value (pos 0)) × ((k2.semaphore_at s).count ≡ pos n))
              (try_wait sem k1))
        (signal sem k)
signal-try_wait sem k s n found e h =
    let k1 : Kernel = with_count s (pos (n + 1)) k in
    let now : (k1.semaphore_at s).count ≡ pos (n + 1) = ground arith in
    rw (signal-ok sem k s n found e h) (
      refl,
      now,
      rw (try_wait-ok sem k1 s n (same_table sem k k1 refl ∙ found) now h) (refl, ground arith),
    )
