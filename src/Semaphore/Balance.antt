-- ===== src/Semaphore/Balance.antt =====
-- The count of a semaphore of kernel/semaphore.c and its waiting processes: below zero, the count
-- says how many wait. The actions of the scheduler, and this balance.
pub mod Recounting
pub mod Waking
use nebulea_os.Base.{
  ℕ, zero, suc, ◌+◌, ◌-◌, ◌≤◌, ◌≡◌, ◌≢◌, refl, ◌∙◌, Bool, true, false, Option, none, some, List, [],
  ◌∷◌, ◌==◌, ◌&&◌, leb, arith, if◌then◌else◌, update, length, find, Bool-cases, Option-cases, inl,
  inr,
}
use nebulea_os.Base.Int.{ℤ, pos, negsuc, pos_part, neg_part}
use nebulea_os.Kernel.Types.{Ref, Head, same_head, Resume, Process, Kernel, nb_proc, is_asleep}
use nebulea_os.Kernel.Exec.{
  Exec, Outcome, ok, fail, ◌>>=◌, ◌>>◌, on_option, modify_process, set_current_pid, set_cr3,
  mem_free, pure, gets,
}
use nebulea_os.Kernel.Lists.{
  queue_add, queue_del, queue_out, link_into, unlink_top, unlink_from, list_of,
}
use nebulea_os.Kernel.Keeps.{Keeps, After, keeps, at, keeps_rules, After-then}
use nebulea_os.Kernel.Steps.{removed, queue_del-ok}
use nebulea_os.Kernel.Chained.{
  link_of_mem, Chained, share, queue_add-Chained, queue_del-Chained, queue_out-Chained,
  modify_process-Chained,
}
use nebulea_os.Kernel.Frames.{set_current_pid-Chained, set_cr3-Chained, mem_free-Chained}
use nebulea_os.Queue.{top, insert, without_top}
use nebulea_os.Queue.Counts.{count}
use nebulea_os.Process.Scheduler.{
  free_process, free_all, free_finished, free_finished_process, with_pid, find_pid, wakeup,
  wakeup_from, wakeup_process, virtual_ctx_sw, elect, scheduler, yield_cpu,
}

pub record Balanced (k : Kernel) (s : Ref) : Type 0 where
  pub waiting : length (k.lists (Head.semaphore_waiters s)) ≡ neg_part (k.semaphore_at s).count
  pub high : pos_part (k.semaphore_at s).count ≤ 32767
  pub low : neg_part (k.semaphore_at s).count ≤ 32767

pub record IsBalanced (k : Kernel) : Type 0 where
  pub linked : Chained k
  pub balanced : (s : Ref) → Balanced k s

-- The lists of the semaphores and their counts are the same.
pub same-Balanced :
    (k k' : Kernel) (s : Ref)
    → k'.lists (Head.semaphore_waiters s) ≡ k.lists (Head.semaphore_waiters s)
    → k'.semaphore_at ≡ k.semaphore_at
    → Balanced k s
    → Balanced k' s
same-Balanced k k' s e e' b = record {
  waiting = rw (e, e') b.waiting;
  high = rw e' b.high;
  low = rw e' b.low;
}

-- What an action that does not touch the semaphores leaves the same.
abbrev pub SameSemaphores : Kernel → Kernel → Type 0
SameSemaphores k k' =
    ((s : Ref) → k'.lists (Head.semaphore_waiters s) ≡ k.lists (Head.semaphore_waiters s))
    × (k'.semaphore_at ≡ k.semaphore_at)

frame-outcome :
    {A : Type 0} (k : Kernel) (o : Outcome A)
    → After Chained o
    → After (SameSemaphores k) o
    → IsBalanced k
    → After IsBalanced o
frame-outcome k (ok a k') c (e, e') b = record {
  linked = c;
  balanced = λ s. same-Balanced k k' s (e s) e' (b.balanced s);
}
frame-outcome k (fail f) c e b = tt

frame :
    {A : Type 0} (m : Exec A)
    → Keeps Chained m
    → ((k : Kernel) → After (SameSemaphores k) (m k))
    → Keeps IsBalanced m
frame m c same = keeps λ k b. frame-outcome k (m k) (at c k b.linked) (same k) b

pub modify_process-IsBalanced :
    (r : Ref) (f : Process → Process)
    → ((p : Process) → ((f p).link ≡ p.link) × ((f p).priority ≡ p.priority))
    → Keeps IsBalanced (modify_process r f)
unfolding modify_process
modify_process-IsBalanced r f h =
    frame _ (unfold modify_process in modify_process-Chained r f h) λ k. (λ s. refl, refl)

pub set_current_pid-IsBalanced : (pid : ℕ) → Keeps IsBalanced (set_current_pid pid)
unfolding set_current_pid
set_current_pid-IsBalanced pid = frame _ (set_current_pid-Chained pid) λ k. (λ s. refl, refl)

pub set_cr3-IsBalanced : (cr3 : ℕ) → Keeps IsBalanced (set_cr3 cr3)
unfolding set_cr3
set_cr3-IsBalanced cr3 = frame _ (set_cr3-Chained cr3) λ k. (λ s. refl, refl)

pub mem_free-IsBalanced : (r : Ref) → Keeps IsBalanced (mem_free r)
unfolding mem_free
mem_free-IsBalanced r = frame _ (mem_free-Chained r) λ k. (λ s. refl, refl)

-- Whether a head is that of a semaphore.
abbrev pub of_semaphore : Head → Bool
of_semaphore (Head.semaphore_waiters s) = true
of_semaphore _ = false

not_same :
    (h : Head) (s : Ref) → of_semaphore h ≡ false → same_head h (Head.semaphore_waiters s) ≡ false
not_same Head.activable_list s e = refl
not_same Head.finished_list s e = refl
not_same Head.waiting_pid_list s e = refl
not_same (Head.queue_waiters q) s e = refl
not_same (Head.semaphore_waiters q) s e = cc

pub queue_add-IsBalanced :
    (r : Ref) (h : Head) → of_semaphore h ≡ false → Keeps IsBalanced (queue_add r h)
unfolding queue_add link_into on_option ◌>>=◌
queue_add-IsBalanced r h no_sem = frame (queue_add r h) (queue_add-Chained r h) λ k.
    elim (Option-cases (k.process_at r).link) [
      | inl free ↦ rw (free, on_option) (λ s. rw (not_same h s no_sem), refl)
      | inr (g, on) ↦ rw (on, on_option) tt
    ]

pub queue_out-IsBalanced : (h : Head) → of_semaphore h ≡ false → Keeps IsBalanced (queue_out h)
unfolding queue_out unlink_top on_option ◌>>=◌
queue_out-IsBalanced h no_sem = frame (queue_out h) (queue_out-Chained h) λ k.
    elim (Option-cases (top (k.lists h))) [
      | inl empty ↦ rw (empty, on_option) (λ s. refl, refl)
      | inr (r, out) ↦ rw (out, on_option) (λ s. rw (not_same h s no_sem), refl)
    ]

pub ruleset balanced_rules = (
  keeps_rules, modify_process-IsBalanced, set_current_pid-IsBalanced, set_cr3-IsBalanced,
  mem_free-IsBalanced, queue_add-IsBalanced, queue_out-IsBalanced, refl,
)

-- What a search by pid finds is in the list.
find-mem :
    (k : Kernel) (pid : ℕ) (l : List Ref) (r : Ref)
    → find (with_pid k pid) l ≡ some r
    → count r l ≢ 0
find-mem k pid [] r e = cc
find-mem k pid (x ∷ xs) r e = ground (arith, find-mem k pid xs r)

free_process-IsBalanced : (r : Ref) → Keeps IsBalanced (free_process r)
unfolding free_process
free_process-IsBalanced r = search balanced_rules depth 8

free_all-IsBalanced : (n : ℕ) → Keeps IsBalanced (free_all n)
unfolding free_all
free_all-IsBalanced zero = search balanced_rules
free_all-IsBalanced (suc n) =
    search (balanced_rules, free_process-IsBalanced, free_all-IsBalanced n) depth 8

wakeup-IsBalanced : (o : Option Ref) → Keeps IsBalanced (wakeup o)
unfolding wakeup
wakeup-IsBalanced none = search balanced_rules
wakeup-IsBalanced (some r) = search balanced_rules depth 10

wakeup_from-IsBalanced : (n i : ℕ) → Keeps IsBalanced (wakeup_from n i)
unfolding wakeup_from
wakeup_from-IsBalanced zero i = search balanced_rules
wakeup_from-IsBalanced (suc n) i =
    search (balanced_rules, wakeup-IsBalanced, wakeup_from-IsBalanced n (i + 1)) depth 10

virtual_ctx_sw-IsBalanced :
    (old new : Ref) (r : Resume) → Keeps IsBalanced (virtual_ctx_sw old new r)
unfolding virtual_ctx_sw
virtual_ctx_sw-IsBalanced old new r = search balanced_rules depth 10

elect-IsBalanced : (r : Resume) → Keeps IsBalanced (elect r)
unfolding elect
elect-IsBalanced r = search (balanced_rules, virtual_ctx_sw-IsBalanced) depth 20

queue_del-IsBalanced :
    (r : Ref) (h : Head) (k : Kernel)
    → of_semaphore h ≡ false
    → (k.process_at r).link ≡ some h
    → IsBalanced k
    → After IsBalanced (queue_del r k)
queue_del-IsBalanced r h k no_sem on b =
    frame-outcome k (queue_del r k) (at (queue_del-Chained r) k b.linked)
      (rw (queue_del-ok r h k on) (λ s. rw (not_same h s no_sem), refl)) b

free_finished_process-IsBalanced : Keeps IsBalanced free_finished_process
unfolding free_finished_process on_option ◌>>=◌
free_finished_process-IsBalanced = keeps λ k b.
    elim (Option-cases (find (with_pid k k.current_pid) (k.lists Head.finished_list))) [
      | inl absent ↦ rw (absent, on_option) (at (free_all-IsBalanced _) k b)
      | inr (r, found) ↦
          rw (found, on_option)
            (After-then ((queue_del r >> free_finished) k) (λ _. queue_add r Head.finished_list)
              (After-then (queue_del r k) (λ _. free_finished)
                (queue_del-IsBalanced r Head.finished_list k refl
                  (link_of_mem r Head.finished_list k b.linked
                    (find-mem k k.current_pid (k.lists Head.finished_list) r found))
                  b)
                (λ _. search (balanced_rules, free_all-IsBalanced)))
              (λ _. queue_add-IsBalanced r Head.finished_list refl))
    ]

wakeup_process-IsBalanced : Keeps IsBalanced wakeup_process
unfolding wakeup_process
wakeup_process-IsBalanced = wakeup_from-IsBalanced nb_proc 0

pub scheduler-IsBalanced : (r : Resume) → Keeps IsBalanced (scheduler r)
unfolding scheduler
scheduler-IsBalanced r =
    search (
      balanced_rules, free_finished_process-IsBalanced, wakeup_process-IsBalanced, elect-IsBalanced,
    )

pub yield_cpu-IsBalanced : (r : Resume) → Keeps IsBalanced (yield_cpu r)
unfolding yield_cpu
yield_cpu-IsBalanced r = search (balanced_rules, scheduler-IsBalanced) depth 20
