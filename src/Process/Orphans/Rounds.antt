-- ===== src/Process/Orphans/Rounds.antt =====
-- The loop of `__process_end` in kernel/process.c over the children, one round at a time.
use nebulea_os.Base.{
  ℕ, ◌≡◌, ◌∙◌, refl, sym, true, false, none, some, List, [], ◌∷◌, ◌==◌, arith, if◌then◌else◌,
  Bool-cases, inl, inr, ap,
}
use mathlib.Core.Option
use nebulea_os.Kernel.Types.{Ref, Child, Kernel, is_zombie}
use nebulea_os.Kernel.Exec.{◌>>=◌, Outcome}
use nebulea_os.Kernel.Steps.{with_process}
use nebulea_os.Kernel.Ends.{Ends, Ends-mono}
use nebulea_os.Process.Ending.{orphan}
use nebulea_os.Process.Reaping.{fatherless, finish_fatherless-ok}
use nebulea_os.Process.Children.{has_pid}
use nebulea_os.Process.Orphans.{
  OncePids, IsChild, Family, IsOrphaned, Orphaned, LeavesOthers, apart, other_pid, Family-kept,
  Orphaned-kept,
}

-- The state behind one round.
abbrev no_father : Ref → Kernel → Kernel
no_father r k = with_process r (record (k.process_at r) { father_pid = none }) k

abbrev round : ℕ → Ref → Kernel → Kernel
round pid r k =
    if is_zombie (k.process_at r).state then fatherless pid r (no_father r k) else no_father r k

round-IsOrphaned :
    (pid : ℕ) (r : Ref) (k : Kernel)
    → k.process_table pid ≡ some r
    → IsOrphaned pid r k (round pid r k)
round-IsOrphaned pid r k entry =
    let self : (r == r) ≡ true = ground arith in
    let self_pid : (pid == pid) ≡ true = ground arith in
    elim (Bool-cases (is_zombie (k.process_at r).state)) [
      | inl ended ↦ record {
        father = rw (ended, self) refl;
        entry = rw (ended, self_pid) refl;
        state = rw (ended, self) refl;
      }
      | inr alive ↦ record {
        father = rw (alive, self) refl;
        entry = rw alive entry;
        state = rw (alive, self) refl;
      }
    ]

round-entries :
    (pid : ℕ) (r : Ref) (k : Kernel) (p : ℕ)
    → (pid == p) ≡ false
    → (round pid r k).process_table p ≡ k.process_table p
round-entries pid r k p away = elim (Bool-cases (is_zombie (k.process_at r).state)) [
  | inl ended ↦ rw (ended, away) refl
  | inr alive ↦ rw alive refl
]

round-processes :
    (pid : ℕ) (r : Ref) (k : Kernel) (p : Ref)
    → (r == p) ≡ false
    → (round pid r k).process_at p ≡ k.process_at p
round-processes pid r k p away = elim (Bool-cases (is_zombie (k.process_at r).state)) [
  | inl ended ↦ rw (ended, away) refl
  | inr alive ↦ rw (alive, away) refl
]

round-pid :
    (pid : ℕ) (r : Ref) (k : Kernel) → ((round pid r k).process_at r).pid ≡ (k.process_at r).pid
round-pid pid r k =
    let self : (r == r) ≡ true = ground arith in
    elim (Bool-cases (is_zombie (k.process_at r).state)) [
      | inl ended ↦ rw (ended, self) refl
      | inr alive ↦ rw (alive, self) refl
    ]

round-current : (pid : ℕ) (r : Ref) (k : Kernel) → (round pid r k).current_pid ≡ k.current_pid
round-current pid r k = elim (Bool-cases (is_zombie (k.process_at r).state)) [
  | inl ended ↦ rw ended refl
  | inr alive ↦ rw alive refl
]

module _ (c : Child) (r : Ref) (k : Kernel) (here : IsChild c r k) where
  -- A round changes no other child of the list.
  round-child :
      (cs : List Child) (p : Ref)
      → has_pid c.pid cs ≡ false
      → has_pid (k.process_at p).pid cs ≡ true
      → (round c.pid r k).process_at p ≡ k.process_at p
  round-child cs p out inside = round-processes c.pid r k p (
      apart k r p c.pid (k.process_at p).pid here.known refl
        (other_pid c.pid (k.process_at p).pid cs out inside))

  round-entry :
      (cs : List Child) (p : ℕ)
      → has_pid c.pid cs ≡ false
      → has_pid p cs ≡ true
      → (round c.pid r k).process_table p ≡ k.process_table p
  round-entry cs p out inside = round-entries c.pid r k p (other_pid c.pid p cs out inside)

  LeavesOthers-before :
      (cs : List Child) (k' : Kernel)
      → LeavesOthers cs (round c.pid r k) k'
      → LeavesOthers (c ∷ cs) k k'
  LeavesOthers-before cs k' others = record {
    entries = λ p out. others.entries p (ground arith) ∙ round-entries c.pid r k p (ground arith);
    processes = λ p out.
        let away : (c.pid == (k.process_at p).pid) ≡ false = ground arith in
        let same : (round c.pid r k).process_at p ≡ k.process_at p =
          round-processes c.pid r k p
            (apart k r p c.pid (k.process_at p).pid here.known refl away) in
        let pid : ((round c.pid r k).process_at p).pid ≡ (k.process_at p).pid =
          ap (λ x. x.pid) same in
        others.processes p (rw pid (ground arith)) ∙ same;
    current = others.current ∙ round-current c.pid r k;
  }

  -- The child of this round stays as the round leaves it.
  IsOrphaned-kept :
      (cs : List Child) (k' : Kernel)
      → has_pid c.pid cs ≡ false
      → LeavesOthers cs (round c.pid r k) k'
      → IsOrphaned c.pid r k k'
  IsOrphaned-kept cs k' out others =
      let now = round-IsOrphaned c.pid r k here.entry in
      let pid : ((round c.pid r k).process_at r).pid ≡ c.pid = round-pid c.pid r k ∙ here.known in
      let same : k'.process_at r ≡ (round c.pid r k).process_at r =
        others.processes r (rw pid out) in
      record {
        father = ap (λ x. x.father_pid) same ∙ now.father;
        entry = others.entries c.pid out ∙ now.entry;
        state = ap (λ x. x.state) same ∙ now.state;
      }

orphan-round :
    (c : Child) (cs : List Child) (r : Ref) (k : Kernel) (o : Outcome (Unit {0}))
    → IsChild c r k
    → orphan cs (round c.pid r k) ≡ o
    → orphan (c ∷ cs) k ≡ o
unfolding orphan ◌>>=◌
orphan-round c cs r k o here rest =
    let self : (r == r) ≡ true = ground arith in
    elim (Bool-cases (is_zombie (k.process_at r).state)) [
      | inl ended ↦
          let unlinked : ((no_father r k).process_at r).link ≡ none = rw self (here.free ended) in
          let done = finish_fatherless-ok c.pid r (no_father r k) here.entry unlinked in
          let later : orphan cs (fatherless c.pid r (no_father r k)) ≡ o =
            ap (λ b. orphan cs (if b then fatherless c.pid r (no_father r k) else no_father r k))
              (sym ended)
            ∙ rest in
          rw (here.entry, self, ended, done) later
      | inr alive ↦
          let later : orphan cs (no_father r k) ≡ o =
            ap (λ b. orphan cs (if b then fatherless c.pid r (no_father r k) else no_father r k))
              (sym alive)
            ∙ rest in
          rw (here.entry, self, alive) later
    ]

-- Let each pid of a list of children be there once, and be that of a process which is in no list
-- if it is a zombie. The loop of __process_end over them ends without a fault; then no child has
-- a father, those that were zombies are finished and their pids free, the others keep their state
-- and their pid, and neither the entry nor the process of any other pid changes.
pub orphan-Orphaned :
    (cs : List Child) (k : Kernel)
    → OncePids cs
    → Family cs k
    → Ends (λ _ k'. Orphaned cs k k' × LeavesOthers cs k k') (orphan cs k)
unfolding orphan ◌>>=◌
orphan-Orphaned [] k once family =
    (tt, record { entries = λ p out. refl; processes = λ r out. refl; current = refl })
orphan-Orphaned (c ∷ cs) k once ((r, here), family) = rw (orphan-round c cs r k _ here refl) (
    Ends-mono _ _ (orphan cs (round c.pid r k))
      (orphan-Orphaned cs (round c.pid r k) once.1 (
        Family-kept cs k (round c.pid r k) (λ p. round-entry c r k here cs p once.0)
          (λ p. round-child c r k here cs p once.0) family))
      (λ u k' (all, others). (
        (
          (λ q entry.
              let at : r ≡ q = Option.some-injective r q (sym here.entry ∙ entry) in
              rw (← at) (IsOrphaned-kept c r k here cs k' once.0 others)),
          Orphaned-kept cs k (round c.pid r k) k' (λ p. round-entry c r k here cs p once.0)
              (λ p. round-child c r k here cs p once.0) family all,
        ),
        LeavesOthers-before c r k here cs k' others,
      )))
