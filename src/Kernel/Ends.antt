-- ===== src/Kernel/Ends.antt =====
-- Total correctness of kernel code: it ends, without a fault, in a state as described.
use nebulea_os.Kernel.Types.{Kernel}
use nebulea_os.Kernel.Keeps.{After}
use nebulea_os.Kernel.Exec.{Outcome, Exec, ok, fail, and_then}

abbrev pub Ends : {A : Type 0} → (A → Kernel → Type 0) → Outcome A → Type 0
Ends Q (ok a k) = Q a k
Ends Q (fail e) = ⊥

pub Ends-then :
    {A B : Type 0} (P : A → Kernel → Type 0) (Q : B → Kernel → Type 0) (o : Outcome A)
    (f : A → Exec B)
    → Ends P o
    → ((a : A) (k : Kernel) → P a k → Ends Q (f a k))
    → Ends Q (and_then o f)
Ends-then P Q (ok a k) f h next = next a k h
Ends-then P Q (fail e) f h next = absurd h

pub Ends-mono :
    {A : Type 0} (P Q : A → Kernel → Type 0) (o : Outcome A)
    → Ends P o
    → ((a : A) (k : Kernel) → P a k → Q a k)
    → Ends Q o
Ends-mono P Q (ok a k) h weaken = weaken a k h
Ends-mono P Q (fail e) h weaken = absurd h

-- What an action keeps holds beside what it ends in.
pub Ends-After :
    {A : Type 0} (P : Kernel → Type 0) (Q : A → Kernel → Type 0) (o : Outcome A)
    → After P o
    → Ends Q o
    → Ends (λ a k. Q a k × P k) o
Ends-After P Q (ok a k) p q = (q, p)
Ends-After P Q (fail e) p q = absurd q
