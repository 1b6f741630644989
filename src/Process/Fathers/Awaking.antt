-- ===== src/Process/Fathers/Awaking.antt =====
-- `__awake_father` of kernel/process.c, and what ends a process before the scheduler is called.
use nebulea_os.Base.{
  ℕ, ◌≡◌, ◌∙◌, refl, ap, true, false, Option, none, some, List, ◌==◌, arith, Bool-cases,
  Option-cases, inl, inr, ==_iff,
}
use nebulea_os.Kernel.Types.{Ref, State, Head, Child, Kernel}
use nebulea_os.Kernel.Exec.{◌>>=◌, ok, on_option}
use nebulea_os.Kernel.Steps.{with_process, added, removed, queue_add-ok, queue_del-ok}
use nebulea_os.Kernel.Ends.{Ends, Ends-mono}
use nebulea_os.Process.Scheduler.{set_state, with_pid}
use nebulea_os.Process.Ending.{orphan, awake_father, retire}
use nebulea_os.Process.Children.{has_pid}
use nebulea_os.Process.Orphans.{apart, other_pid, Family-kept, Orphaned-kept}
use nebulea_os.Process.Orphans.Rounds.{orphan-Orphaned}
use nebulea_os.Process.Fathers.{
  HasFamily, HasEnded, waiting_father, find-same, father-pid, father-apart,
}

-- The father behind `__awake_father`.
abbrev woken : ℕ → Ref → Kernel → Kernel
woken pid w k =
    let k1 : Kernel = removed w Head.waiting_pid_list k in
    added w Head.activable_list
      (with_process w (record (k1.process_at w) { waited_pid = pid; state = State.activable }) k1)

abbrev awakened : ℕ → Option Ref → Kernel → Kernel
awakened pid none k = k
awakened pid (some w) k = woken pid w k

awake_father-ok :
    (pid f : ℕ) (r : Ref) (k : Kernel) (o : Option Ref)
    → k.process_table pid ≡ some r
    → (k.process_at r).father_pid ≡ some f
    → waiting_father f k ≡ o
    → ((w : Ref) → o ≡ some w → (k.process_at w).link ≡ some Head.waiting_pid_list)
    → awake_father pid k ≡ ok tt (awakened pid o k)
unfolding awake_father on_option ◌>>=◌
awake_father-ok pid f r k none entry father at waits = rw (entry, father, on_option, at) refl
awake_father-ok pid f r k (some w) entry father at waits =
    let self : (w == w) ≡ true = ground arith in
    let k1 : Kernel = removed w Head.waiting_pid_list k in
    let k2 : Kernel =
      with_process w (record (k1.process_at w) { waited_pid = pid; state = State.activable }) k1 in
    let unlinked : (k2.process_at w).link ≡ none = rw self refl in
    rw
      (
        entry,
        father,
        on_option,
        at,
        on_option,
        queue_del-ok w Head.waiting_pid_list k (waits w refl),
        queue_add-ok w Head.activable_list k2 unlinked,
      )
      refl

module _ (pid f : ℕ) (r : Ref) (k : Kernel) (h : HasFamily pid f r k) where
  -- The states in which the process is a zombie, and its father awake.
  abbrev ended : Kernel
  ended = with_process r (set_state State.zombie (k.process_at r)) k

  abbrev seen : Kernel
  seen = awakened pid (waiting_father f k) ended

  waiting_father-ended : waiting_father f ended ≡ waiting_father f k
  waiting_father-ended =
      find-same (with_pid ended f) (with_pid k f) (k.lists Head.waiting_pid_list) (λ x.
        elim (Bool-cases (r == x)) [
          | inl same ↦ let at : r ≡ x = (==_iff r x).0 same in rw (same, at) refl
          | inr other ↦ rw other refl
        ])

  -- Only the process itself and the father change before the loop.
  seen-processes :
      (p : Ref)
      → (r == p) ≡ false
      → ((w : Ref) → waiting_father f k ≡ some w → (w == p) ≡ false)
      → seen.process_at p ≡ k.process_at p
  seen-processes p away others = elim (Option-cases (waiting_father f k)) [
    | inl none_waits ↦ rw (none_waits, away) refl
    | inr (w, at) ↦ rw (at, others w at, away) refl
  ]

  seen-entries : (p : ℕ) → seen.process_table p ≡ k.process_table p
  seen-entries p = elim (Option-cases (waiting_father f k)) [
    | inl none_waits ↦ rw none_waits refl
    | inr (w, at) ↦ rw at refl
  ]

  seen-child :
      (p : Ref)
      → has_pid (k.process_at p).pid (k.process_at r).children ≡ true
      → seen.process_at p ≡ k.process_at p
  seen-child p inside =
      let cs : List Child = (k.process_at r).children in
      seen-processes p
        (apart k r p pid (k.process_at p).pid h.known refl
          (other_pid pid (k.process_at p).pid cs h.not_self inside))
        (λ w at.
          apart k w p f (k.process_at p).pid (father-pid pid f r k h w at) refl
            (other_pid f (k.process_at p).pid cs h.not_father inside))

  seen_self :
      ((seen.process_at r).state ≡ State.zombie)
      × ((seen.process_at r).pid ≡ pid)
      × ((seen.process_at r).children ≡ (k.process_at r).children)
      × ((seen.process_at r).retval ≡ (k.process_at r).retval)
  seen_self =
      let self : (r == r) ≡ true = ground arith in
      elim (Option-cases (waiting_father f k)) [
        | inl none_waits ↦ rw (none_waits, self) (refl, h.known, refl, refl)
        | inr (w, at) ↦
            let away : (w == r) ≡ false = ground (arith, father-apart pid f r k h w at) in
            rw (at, away, self) (refl, h.known, refl, refl)
      ]

  seen-current : seen.current_pid ≡ k.current_pid
  seen-current = elim (Option-cases (waiting_father f k)) [
    | inl none_waits ↦ rw none_waits refl
    | inr (w, at) ↦ rw at refl
  ]

  seen-woken :
      (w : Ref)
      → waiting_father f k ≡ some w
      → ((seen.process_at w).waited_pid ≡ pid)
        × ((seen.process_at w).state ≡ State.activable)
        × ((seen.process_at w).link ≡ some Head.activable_list)
        × ((seen.process_at w).pid ≡ f)
  seen-woken w at =
      let self : (w == w) ≡ true = ground arith in
      rw (at, self)
        (rw (father-apart pid f r k h w at) (refl, refl, refl, father-pid pid f r k h w at))

  seen-ok : awake_father pid ended ≡ ok tt seen
  seen-ok =
      let self : (r == r) ≡ true = ground arith in
      let father : (ended.process_at r).father_pid ≡ some f = rw self (h.father) in
      awake_father-ok pid f r ended (waiting_father f k) h.entry father waiting_father-ended
        (λ w at. rw (father-apart pid f r k h w at) (h.waits w at))

-- Let the process of a pid have a father, and children each of its own pid, none of them itself or the father, those that are
-- zombies in no list; if the father is in the list of those that wait, let its link say so. Then the part of __process_end up to
-- the call of the scheduler ends without a fault: the process is a zombie that keeps its pid and its value; no child of it has a father, those
-- that were zombies are finished and their pids free; and a father that waited may run and knows which child ended.
pub retire-HasEnded :
    (pid f : ℕ) (r : Ref) (k : Kernel)
    → HasFamily pid f r k
    → Ends
        (λ _ k'. HasEnded pid f r (k.process_at r).retval k k' × (k'.current_pid ≡ k.current_pid))
        (retire pid k)
unfolding retire on_option ◌>>=◌
retire-HasEnded pid f r k h =
    let cs : List Child = (k.process_at r).children in
    let self : (r == r) ≡ true = ground arith in
    let me = seen_self pid f r k h in
    rw (h.entry, h.father, on_option)
      (rw (seen-ok pid f r k h) (
        rw (me.2) (
          Ends-mono _ _ (orphan cs (seen pid f r k h))
            (orphan-Orphaned cs (seen pid f r k h) h.once (
              Family-kept cs k (seen pid f r k h) (λ p inside. seen-entries pid f r k h p)
                (seen-child pid f r k h) h.family))
            (λ u k' (all, others).
              let same : k'.process_at r ≡ (seen pid f r k h).process_at r =
                others.processes r (rw (me.1) h.not_self) in
              (
                record {
                  entry = others.entries pid h.not_self ∙ seen-entries pid f r k h pid ∙ h.entry;
                  state = ap (λ p. p.state) same ∙ me.0;
                  retval = ap (λ p. p.retval) same ∙ me.3;
                  orphans =
                      Orphaned-kept cs k (seen pid f r k h) k'
                        (λ p inside. seen-entries pid f r k h p) (seen-child pid f r k h) h.family
                        all;
                  woken = λ w at.
                      let awake = seen-woken pid f r k h w at in
                      let same_w : k'.process_at w ≡ (seen pid f r k h).process_at w =
                        others.processes w (rw (awake.3) h.not_father) in
                      (
                        ap (λ p. p.waited_pid) same_w ∙ awake.0,
                        ap (λ p. p.state) same_w ∙ awake.1,
                        ap (λ p. p.link) same_w ∙ awake.2,
                      );
                },
                others.current ∙ seen-current pid f r k h,
              )))))
