-- ===== src/Process/Killing.antt =====
-- `kill` of kernel/process.c, of a process that has a father and is not the current one.
use nebulea_os.Base.{
  ℕ, ◌<◌, ◌≡◌, ◌∙◌, refl, sym, ap, true, false, some, ltb, ◌==◌, arith, Bool-cases, Option-cases,
  inl, inr, find, ==_iff,
}
use nebulea_os.Base.Int.{ℤ, pos}
use nebulea_os.Kernel.Types.{Ref, Head, Resume, same_head, Kernel, is_zombie, is_in_sem, nb_proc}
use nebulea_os.Kernel.Exec.{◌>>=◌, on_option, value}
use nebulea_os.Kernel.Steps.{with_process, removed, queue_del-ok}
use nebulea_os.Kernel.Ends.{Ends, Ends-then}
use nebulea_os.Process.Table.{valid_process}
use nebulea_os.Process.Scheduler.{with_pid}
use nebulea_os.Process.Ending.{retire, withdraw, process_end, kill, kill_process}
use nebulea_os.Process.Children.{has_pid}
use nebulea_os.Process.Orphans.{other_pid, apart, Family-kept, Orphaned-kept}
use nebulea_os.Process.Fathers.{HasFamily, HasEnded, waiting_father, find-same, father-apart}
use nebulea_os.Process.Fathers.Awaking.{retire-HasEnded}

-- Of the processes only `r` changed, and that in nothing that its family depends on.
record Keeps (r : Ref) (k k1 : Kernel) : Type 0 where
  entries : (p : ℕ) → k1.process_table p ≡ k.process_table p
  processes : (p : Ref) → (r == p) ≡ false → k1.process_at p ≡ k.process_at p
  pid : (k1.process_at r).pid ≡ (k.process_at r).pid
  father : (k1.process_at r).father_pid ≡ (k.process_at r).father_pid
  children : (k1.process_at r).children ≡ (k.process_at r).children
  waiting : k1.lists Head.waiting_pid_list ≡ k.lists Head.waiting_pid_list
  current : k1.current_pid ≡ k.current_pid

-- A process that does not wait for a child, and waits at no semaphore but one that is there.
pub record CanWithdraw (r : Ref) (k : Kernel) : Type 0 where
  pub elsewhere :
      (h : Head) → (k.process_at r).link ≡ some h → same_head h Head.waiting_pid_list ≡ false
  pub semaphore :
      is_in_sem (k.process_at r).state ≡ true
      → (s : Ref) × (k.semaphore_table (k.process_at r).waited_sem ≡ some s)

removed-Keeps :
    (r : Ref) (h : Head) (k : Kernel)
    → same_head h Head.waiting_pid_list ≡ false
    → Keeps r k (removed r h k)
removed-Keeps r h k elsewhere =
    let self : (r == r) ≡ true = ground arith in
    record {
      entries = λ p. refl;
      processes = λ p away. rw away refl;
      pid = rw self refl;
      father = rw self refl;
      children = rw self refl;
      waiting = rw elsewhere refl;
      current = refl;
    }

withdraw-Keeps :
    (r : Ref) (k : Kernel) → CanWithdraw r k → Ends (λ _ k1. Keeps r k k1) (withdraw r k)
unfolding withdraw ◌>>=◌
withdraw-Keeps r k can = elim (Option-cases (k.process_at r).link) [
  | inl free ↦ rw free (record {
    entries = λ p. refl;
    processes = λ p away. refl;
    pid = refl;
    father = refl;
    children = refl;
    waiting = refl;
    current = refl;
  })
  | inr (h, linked) ↦
      let out = removed-Keeps r h k (can.elsewhere h linked) in
      elim (Bool-cases (is_in_sem (k.process_at r).state)) [
        | inl waits ↦
            let (s, there) = can.semaphore waits in
            rw (linked, queue_del-ok r h k linked, waits, there)
              (record {
                entries = out.entries;
                processes = out.processes;
                pid = out.pid;
                father = out.father;
                children = out.children;
                waiting = out.waiting;
                current = out.current;
              })
        | inr away ↦ rw (linked, queue_del-ok r h k linked, away) out
      ]
]

module _ (pid f : ℕ) (r : Ref) (k k1 : Kernel) (same : Keeps r k k1) (h : HasFamily pid f r k) where
  waiting_father-kept : waiting_father f k1 ≡ waiting_father f k
  waiting_father-kept =
      ap (λ xs. find (with_pid k1 f) xs) same.waiting
      ∙ find-same (with_pid k1 f) (with_pid k f) (k.lists Head.waiting_pid_list)
          (λ x. ap (λ n. n == f) (pid-kept x))
    where
      pid-kept : (x : Ref) → (k1.process_at x).pid ≡ (k.process_at x).pid
      pid-kept x = elim (Bool-cases (r == x)) [
        | inl here ↦ let at : r ≡ x = (==_iff r x).0 here in rw (← at) (same.pid)
        | inr away ↦ ap (λ p. p.pid) (same.processes x away)
      ]

  child-kept :
      (p : Ref)
      → has_pid (k.process_at p).pid (k.process_at r).children ≡ true
      → k1.process_at p ≡ k.process_at p
  child-kept p inside = same.processes p (
      apart k r p pid (k.process_at p).pid h.known refl
        (other_pid pid (k.process_at p).pid (k.process_at r).children h.not_self inside))

  HasFamily-kept : HasFamily pid f r k1
  HasFamily-kept = record {
    entry = same.entries pid ∙ h.entry;
    known = same.pid ∙ h.known;
    father = same.father ∙ h.father;
    apart = h.apart;
    not_self = rw (same.children) h.not_self;
    not_father = rw (same.children) h.not_father;
    once = rw (same.children) h.once;
    family = rw (same.children) (
        Family-kept (k.process_at r).children k k1 (λ p inside. same.entries p) child-kept
          h.family);
    waits = λ w at.
        let before : waiting_father f k ≡ some w = sym waiting_father-kept ∙ at in
        ap (λ p. p.link) (same.processes w (father-apart pid f r k h w before)) ∙ h.waits w before;
  }

  HasEnded-before : (v : ℤ) (k' : Kernel) → HasEnded pid f r v k1 k' → HasEnded pid f r v k k'
  HasEnded-before v k' done = record {
    entry = done.entry;
    state = done.state;
    retval = done.retval;
    orphans =
        Orphaned-kept (k.process_at r).children k k1 k' (λ p inside. same.entries p) child-kept
          h.family (rw (← same.children) done.orphans);
    woken = λ w at. done.woken w (waiting_father-kept ∙ at);
  }

abbrev with_retval : Ref → Kernel → Kernel
with_retval r k = with_process r (record (k.process_at r) { retval = pos 0 }) k

with_retval-Keeps : (r : Ref) (k k1 : Kernel) → Keeps r k k1 → Keeps r k (with_retval r k1)
with_retval-Keeps r k k1 same =
    let self : (r == r) ≡ true = ground arith in
    record {
      entries = same.entries;
      processes = λ p away. rw away (same.processes p away);
      pid = rw self (same.pid);
      father = rw self (same.father);
      children = rw self (same.children);
      waiting = same.waiting;
      current = same.current;
    }

HasEnded-value :
    (pid f : ℕ) (r : Ref) (v w : ℤ) (k k' : Kernel)
    → v ≡ w
    → HasEnded pid f r v k k'
    → HasEnded pid f r w k k'
HasEnded-value pid f r v w k k' same done = record {
  entry = done.entry;
  state = done.state;
  retval = done.retval ∙ same;
  orphans = done.orphans;
  woken = done.woken;
}

process_end-HasEnded :
    (pid f : ℕ) (r : Ref) (k : Kernel) (resume : Resume)
    → HasFamily pid f r k
    → (pid == k.current_pid) ≡ false
    → Ends
        (λ gone k'. (gone ≡ false) × HasEnded pid f r (k.process_at r).retval k k')
        (process_end pid resume k)
unfolding process_end ◌>>=◌
process_end-HasEnded pid f r k resume h not_current =
    Ends-then
      (λ _ k'. HasEnded pid f r (k.process_at r).retval k k' × (k'.current_pid ≡ k.current_pid)) _
      (retire pid k) _ (retire-HasEnded pid f r k h)
      (λ u k' (done, current).
        let elsewhere : (pid == k'.current_pid) ≡ false = rw current not_current in
        rw elsewhere (refl, done))

kill_process-HasEnded :
    (pid f : ℕ) (r : Ref) (k : Kernel)
    → HasFamily pid f r k
    → CanWithdraw r k
    → (pid == k.current_pid) ≡ false
    → Ends (λ v k'. (v ≡ value (pos 0)) × HasEnded pid f r (pos 0) k k') (kill_process pid r k)
unfolding kill_process ◌>>=◌
kill_process-HasEnded pid f r k h can not_current =
    let self : (r == r) ≡ true = ground arith in
    Ends-then (λ _ k1. Keeps r k k1) _ (withdraw r k) _ (withdraw-Keeps r k can)
      (λ u k1 same.
        let k2 : Kernel = with_retval r k1 in
        let same2 : Keeps r k k2 = with_retval-Keeps r k k1 same in
        let zero : (k2.process_at r).retval ≡ pos 0 = rw self refl in
        let elsewhere : (pid == k2.current_pid) ≡ false = rw (same2.current) not_current in
        Ends-then (λ gone k'. (gone ≡ false) × HasEnded pid f r (k2.process_at r).retval k2 k') _
          (process_end pid (Resume.returning (pos 0)) k2) _
          (process_end-HasEnded pid f r k2 (Resume.returning (pos 0))
            (HasFamily-kept pid f r k k2 same2 h) elsewhere)
          (λ gone k' (stays, done). rw stays (
            refl,
            HasEnded-before pid f r k k2 same2 h (pos 0) k'
                (HasEnded-value pid f r _ _ k2 k' zero done),
          )))

-- Let the process of a pid have a father, and children each of its own pid, none of them itself
-- or the father, those that are zombies in no list; if the father is in the list of those that
-- wait for a child, let its link say so. Where the process is neither the idle one nor the
-- current one, is no zombie, and neither waits for a child nor at a semaphore that is not there,
-- kill returns 0 without a fault. The process is then a zombie that keeps its pid, with the value
-- 0; no child of it has a father, those that were zombies are finished and their pids free; and a
-- father that waited may run and knows which child ended.
pub kill-HasEnded :
    (pid f : ℕ) (r : Ref) (k : Kernel)
    → HasFamily pid f r k
    → CanWithdraw r k
    → pid < nb_proc
    → (pid == 0) ≡ false
    → (pid == k.current_pid) ≡ false
    → is_zombie (k.process_at r).state ≡ false
    → Ends (λ v k'. (v ≡ value (pos 0)) × HasEnded pid f r (pos 0) k k') (kill (pos pid) k)
unfolding kill valid_process on_option ◌>>=◌
kill-HasEnded pid f r k h can small not_idle not_current alive =
    let valid : ltb pid nb_proc ≡ true = ground (arith, small) in
    rw (valid, h.entry, on_option)
      (rw (not_idle, alive) (kill_process-HasEnded pid f r k h can not_current))
