-- ===== src/Kernel/Keeps.antt =====
-- Invariants of kernel code: one rule for each way to build an action.
use nebulea_os.Base.{Bool, true, false, Option, none, some, if◌then◌else◌}
use nebulea_os.Kernel.Types.{Kernel, Ref}
use nebulea_os.Kernel.Exec.{
  Fault, Outcome, Exec, ok, fail, pure, stop, gets, non_null, get_process, on_option, and_then,
  ◌>>=◌, ◌>>◌,
}

-- What an action leaves behind; a fault stops the machine and leaves nothing.
abbrev pub After : {A : Type 0} → (Kernel → Type 0) → Outcome A → Type 0
After P (ok a k) = P k
After P (fail e) = Unit {0}

-- From a state with `P`, the action faults or ends in a state with `P`.
pub data Keeps {A : Type 0} (P : Kernel → Type 0) (m : Exec A) : Type 0 where
  keeps : ((k : Kernel) → P k → After P (m k)) → Keeps P m

pub at :
    {A : Type 0} {P : Kernel → Type 0} {m : Exec A} → Keeps P m → (k : Kernel) → P k → After P (m k)
at (keeps h) = h

module _ {P : Kernel → Type 0} where
  pub After-then :
      {A B : Type 0} (o : Outcome A) (f : A → Exec B)
      → After P o
      → ((a : A) → Keeps P (f a))
      → After P (and_then o f)
  After-then (ok a k) f h kf = at (kf a) k h
  After-then (fail e) f h kf = tt

  pub Keeps-bind :
      {A B : Type 0} (m : Exec A) (f : A → Exec B)
      → Keeps P m
      → ((a : A) → Keeps P (f a))
      → Keeps P (m >>= f)
  unfolding ◌>>=◌
  Keeps-bind m f km kf = keeps (λ k h. After-then (m k) f (at km k h) kf)

  pub Keeps-then :
      {B : Type 0} (m : Exec (Unit {0})) (n : Exec B) → Keeps P m → Keeps P n → Keeps P (m >> n)
  Keeps-then m n km kn = Keeps-bind m (λ _. n) km (λ _. kn)

  pub Keeps-pure : {A : Type 0} (a : A) → Keeps P (pure a)
  unfolding pure
  Keeps-pure a = keeps (λ k h. h)

  pub Keeps-stop : {A : Type 0} (e : Fault) → Keeps P (stop {A = A} e)
  unfolding stop
  Keeps-stop e = keeps (λ k h. tt)

  pub Keeps-gets : {A : Type 0} (f : Kernel → A) → Keeps P (gets f)
  unfolding gets
  Keeps-gets f = keeps (λ k h. h)

  pub Keeps-get_process : (r : Ref) → Keeps P (get_process r)
  unfolding get_process
  Keeps-get_process r = keeps (λ k h. h)

  pub Keeps-non_null : (o : Option Ref) → Keeps P (non_null o)
  unfolding non_null
  Keeps-non_null none = Keeps-stop _
  Keeps-non_null (some r) = Keeps-pure r

  pub Keeps-on_option :
      {A B : Type 0} (o : Option A) (m : Exec B) (f : A → Exec B)
      → Keeps P m
      → ((a : A) → Keeps P (f a))
      → Keeps P (on_option o m f)
  unfolding on_option
  Keeps-on_option none m f km kf = km
  Keeps-on_option (some a) m f km kf = kf a

  pub Keeps-if :
      {A : Type 0} (b : Bool) (m n : Exec A) → Keeps P m → Keeps P n → Keeps P (if b then m else n)
  Keeps-if true m n km kn = km
  Keeps-if false m n km kn = kn

pub ruleset keeps_rules = (
  Keeps-pure, Keeps-stop, Keeps-gets, Keeps-get_process, Keeps-non_null, Keeps-on_option, Keeps-if,
  Keeps-bind, Keeps-then,
)
