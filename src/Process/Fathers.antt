-- ===== src/Process/Fathers.antt =====
-- A process of kernel/process.c with its father and its children, and what its end leaves of them.
pub mod Awaking
use nebulea_os.Base.{
  ℕ, ◌≡◌, ◌∙◌, refl, sym, ap, Bool, true, false, Option, none, some, List, [], ◌∷◌, ◌==◌, arith,
  Bool-cases, Option-cases, inl, inr, find, ==_iff,
}
use mathlib.Core.Option
use nebulea_os.Base.Int.{ℤ}
use nebulea_os.Kernel.Types.{Ref, State, Head, Child, Kernel}
use nebulea_os.Kernel.Exec.{◌>>=◌, ok, on_option}
use nebulea_os.Kernel.Steps.{with_process, added, removed, queue_add-ok, queue_del-ok}
use nebulea_os.Kernel.Ends.{Ends, Ends-mono}
use nebulea_os.Process.Scheduler.{set_state, with_pid}
use nebulea_os.Process.Ending.{orphan, awake_father, retire}
use nebulea_os.Process.Children.{has_pid}
use nebulea_os.Process.Orphans.{
  OncePids, Family, Orphaned, apart, other_pid, Family-kept, Orphaned-kept,
}
use nebulea_os.Process.Orphans.Rounds.{orphan-Orphaned}

-- The father that waits for a child, if it does.
abbrev pub waiting_father : ℕ → Kernel → Option Ref
waiting_father f k = find (with_pid k f) (k.lists Head.waiting_pid_list)

-- A process with a father, and with children that are neither itself nor the father.
pub record HasFamily (pid f : ℕ) (r : Ref) (k : Kernel) : Type 0 where
  pub entry : k.process_table pid ≡ some r
  pub known : (k.process_at r).pid ≡ pid
  pub father : (k.process_at r).father_pid ≡ some f
  pub apart : (pid == f) ≡ false
  pub not_self : has_pid pid (k.process_at r).children ≡ false
  pub not_father : has_pid f (k.process_at r).children ≡ false
  pub once : OncePids (k.process_at r).children
  pub family : Family (k.process_at r).children k
  pub waits :
      (w : Ref) → waiting_father f k ≡ some w → (k.process_at w).link ≡ some Head.waiting_pid_list

-- The process is a zombie with a value and keeps its pid, no child has a father, and a father that waited knows which child ended and may run.
pub record HasEnded (pid f : ℕ) (r : Ref) (value : ℤ) (k k' : Kernel) : Type 0 where
  pub entry : k'.process_table pid ≡ some r
  pub state : (k'.process_at r).state ≡ State.zombie
  pub retval : (k'.process_at r).retval ≡ value
  pub orphans : Orphaned (k.process_at r).children k k'
  pub woken :
      (w : Ref)
      → waiting_father f k ≡ some w
      → ((k'.process_at w).waited_pid ≡ pid)
        × ((k'.process_at w).state ≡ State.activable)
        × ((k'.process_at w).link ≡ some Head.activable_list)

find-true : (p : Ref → Bool) (xs : List Ref) (x : Ref) → find p xs ≡ some x → p x ≡ true
find-true p [] x e = absurd (Option.none-ne-some x e)
find-true p (y ∷ ys) x e = elim (Bool-cases (p y)) [
  | inl holds ↦
      let at : y ≡ x =
        Option.some-injective y x
          (ap (λ b. elim b [ true ↦ some y | false ↦ find p ys ]) (sym holds) ∙ e) in
      ap p (sym at) ∙ holds
  | inr fails ↦
      find-true p ys x (ap (λ b. elim b [ true ↦ some y | false ↦ find p ys ]) (sym fails) ∙ e)
]

pub find-same : (p q : Ref → Bool) (xs : List Ref) → ((x : Ref) → p x ≡ q x) → find p xs ≡ find q xs
find-same p q [] same = refl
find-same p q (x ∷ xs) same = elim (Bool-cases (q x)) [
  | inl holds ↦ rw (find, same x, holds) refl
  | inr fails ↦ rw (find, same x, fails) (find-same p q xs same)
]

module _ (pid f : ℕ) (r : Ref) (k : Kernel) (h : HasFamily pid f r k) where
  pub father-pid : (w : Ref) → waiting_father f k ≡ some w → (k.process_at w).pid ≡ f
  father-pid w at =
      let found = find-true (with_pid k f) (k.lists Head.waiting_pid_list) w at in ground arith

  pub father-apart : (w : Ref) → waiting_father f k ≡ some w → (r == w) ≡ false
  father-apart w at = apart k r w pid f h.known (father-pid w at) h.apart
