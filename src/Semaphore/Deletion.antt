-- ===== src/Semaphore/Deletion.antt =====
-- `sdelete` of kernel/semaphore.c on a valid semaphore.
use nebulea_os.Base.{ℕ, ◌≡◌, Option, none, some, update, arith}
use nebulea_os.Base.Int.{ℤ, pos_part}
use nebulea_os.Kernel.Types.{Ref, Head, Kernel}
use nebulea_os.Kernel.Exec.{Exec, Outcome, ok, fail, and_then, on_option, ◌>>=◌}
use nebulea_os.Kernel.Keeps.{After}
use nebulea_os.Semaphore.Table.{find_semaphore, nb_waiting_proc2, wake_waiters, sdelete}

-- What fails wherever it starts fails behind any action.
always-fails :
    {A B : Type 0} (o : Outcome A) (f : A → Exec B)
    → ((a : A) (k : Kernel) → After (λ _. ⊥) (f a k))
    → After (λ _. ⊥) (and_then o f)
always-fails (ok a k) f h = h a k
always-fails (fail e) f h = tt

cleared : (table : ℕ → Option Ref) (n : ℕ) → update table n none n ≡ none
cleared table n = ground arith

-- On a valid semaphore sdelete never returns: it clears the entry of the table, and then follows
-- it to count the processes that wait.
pub sdelete-fails :
    (sem : ℤ) (k : Kernel) (s : Ref)
    → find_semaphore sem k ≡ some s
    → After (λ _. ⊥) (sdelete sem k)
unfolding sdelete nb_waiting_proc2 ◌>>=◌ on_option
sdelete-fails sem k s found =
    rw (found, on_option)
      (always-fails (wake_waiters (Head.semaphore_waiters s) k) _
        (λ _ k1. rw (cleared k1.semaphore_table (pos_part sem)) tt))
