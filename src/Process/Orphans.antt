-- ===== src/Process/Orphans.antt =====
-- The children that a process of kernel/process.c leaves when it ends, and what keeps them as they are.
pub mod Rounds
use nebulea_os.Base.{
  ℕ, ◌≡◌, ◌∙◌, refl, sym, Bool, true, false, none, some, List, [], ◌∷◌, ◌==◌, ◌||◌, arith,
  if◌then◌else◌, Bool-cases, inl, inr, ap, ==_iff,
}
use mathlib.Core.Option
use nebulea_os.Kernel.Types.{Ref, State, Child, Kernel, is_zombie}
use nebulea_os.Kernel.Exec.{◌>>=◌, Outcome}
use nebulea_os.Kernel.Steps.{with_process}
use nebulea_os.Kernel.Ends.{Ends, Ends-mono}
use nebulea_os.Process.Children.{has_pid}
use nebulea_os.Process.Ending.{orphan}
use nebulea_os.Process.Reaping.{fatherless, finish_fatherless-ok}

abbrev pub OncePids : List Child → Type 0
OncePids [] = Unit {0}
OncePids (c ∷ cs) = (has_pid c.pid cs ≡ false) × OncePids cs

-- `r` is the process of a child, and in no list if it has ended.
pub record IsChild (c : Child) (r : Ref) (k : Kernel) : Type 0 where
  pub entry : k.process_table c.pid ≡ some r
  pub known : (k.process_at r).pid ≡ c.pid
  pub free : is_zombie (k.process_at r).state ≡ true → (k.process_at r).link ≡ none

abbrev pub Family : List Child → Kernel → Type 0
Family [] k = Unit {0}
Family (c ∷ cs) k = ((r : Ref) × IsChild c r k) × Family cs k

-- A process that has lost its father, and is finished and without its pid if it had ended.
pub record IsOrphaned (pid : ℕ) (r : Ref) (k k' : Kernel) : Type 0 where
  pub father : (k'.process_at r).father_pid ≡ none
  pub entry : k'.process_table pid ≡ (if is_zombie (k.process_at r).state then none else some r)
  pub state :
      (k'.process_at r).state
      ≡ (if is_zombie (k.process_at r).state then State.finished else (k.process_at r).state)

-- All children in the list are orphaned.
abbrev pub Orphaned : List Child → Kernel → Kernel → Type 0
Orphaned [] k k' = Unit {0}
Orphaned (c ∷ cs) k k' =
    ((r : Ref) → k.process_table c.pid ≡ some r → IsOrphaned c.pid r k k') × Orphaned cs k k'

-- What the loop leaves alone: the entries of other pids, and the processes of other pids.
pub record LeavesOthers (cs : List Child) (k k' : Kernel) : Type 0 where
  pub entries : (p : ℕ) → has_pid p cs ≡ false → k'.process_table p ≡ k.process_table p
  pub processes :
      (r : Ref) → has_pid (k.process_at r).pid cs ≡ false → k'.process_at r ≡ k.process_at r
  pub current : k'.current_pid ≡ k.current_pid

-- Processes of different pids are different.
pub apart :
    (k : Kernel) (r p : Ref) (a b : ℕ)
    → (k.process_at r).pid ≡ a
    → (k.process_at p).pid ≡ b
    → (a == b) ≡ false
    → (r == p) ≡ false
apart k r p a b e f away = elim (Bool-cases (r == p)) [
  | inl same ↦
      let at : r ≡ p = (==_iff r p).0 same in
      let pids : a ≡ b = sym e ∙ ap (λ q. (k.process_at q).pid) at ∙ f in ground (arith, pids)
  | inr other ↦ other
]

-- A pid of the list is none that is not in it.
pub other_pid :
    (a b : ℕ) (cs : List Child) → has_pid a cs ≡ false → has_pid b cs ≡ true → (a == b) ≡ false
other_pid a b [] out inside = cc
other_pid a b (c ∷ cs) out inside = ground (arith, other_pid a b cs)

-- What changes neither an entry nor the process of a child keeps the family.
pub Family-kept :
    (cs : List Child) (k k1 : Kernel)
    → ((p : ℕ) → has_pid p cs ≡ true → k1.process_table p ≡ k.process_table p)
    → ((p : Ref) → has_pid (k.process_at p).pid cs ≡ true → k1.process_at p ≡ k.process_at p)
    → Family cs k
    → Family cs k1
Family-kept [] k k1 entries processes family = tt
Family-kept (d ∷ cs) k k1 entries processes ((p, child), family) =
    let same : k1.process_at p ≡ k.process_at p = processes p (ground (arith, child.known)) in
    (
      (
        p,
        record {
          entry = entries d.pid (ground arith) ∙ child.entry;
          known = ap (λ q. q.pid) same ∙ child.known;
          free = λ ended.
              ap (λ q. q.link) same ∙ child.free (ap (λ q. is_zombie q.state) (sym same) ∙ ended);
        },
      ),
      Family-kept cs k k1 (λ q h. entries q (ground arith)) (λ q h. processes q (ground arith))
          family,
    )

pub Orphaned-kept :
    (cs : List Child) (k k1 k' : Kernel)
    → ((p : ℕ) → has_pid p cs ≡ true → k1.process_table p ≡ k.process_table p)
    → ((p : Ref) → has_pid (k.process_at p).pid cs ≡ true → k1.process_at p ≡ k.process_at p)
    → Family cs k
    → Orphaned cs k1 k'
    → Orphaned cs k k'
Orphaned-kept [] k k1 k' entries processes family all = tt
Orphaned-kept (d ∷ cs) k k1 k' entries processes ((p, child), family) (first, all) = (
  (λ q entry.
      let at : p ≡ q = Option.some-injective p q (sym child.entry ∙ entry) in
      let known : (k.process_at q).pid ≡ d.pid =
        ap (λ x. (k.process_at x).pid) (sym at) ∙ child.known in
      let state : (k1.process_at q).state ≡ (k.process_at q).state =
        ap (λ x. x.state) (processes q (ground (arith, known))) in
      let done = first q (entries d.pid (ground arith) ∙ entry) in
      record {
        father = done.father;
        entry = rw (← state) (done.entry);
        state = rw (← state) (done.state);
      }),
  Orphaned-kept cs k k1 k' (λ q h. entries q (ground arith)) (λ q h. processes q (ground arith))
      family all,
)
