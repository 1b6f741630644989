-- ===== src/Process/Scheduler/Waking.antt =====
-- `__wakeup_process` of kernel/process.c: the processes that are due.
use nebulea_os.Base.{
  ℕ, zero, suc, ◌+◌, ◌≤◌, ◌<◌, ◌≡◌, refl, ◌∙◌, Bool, true, false, Option, none, some, ◌==◌, ◌&&◌,
  leb, arith, Bool-cases, inl, inr, ◌⊎◌,
}
use nebulea_os.Kernel.Types.{Ref, Head, same_head, State, Kernel, is_asleep, nb_proc}
use nebulea_os.Kernel.Exec.{◌>>=◌}
use nebulea_os.Kernel.Lists.{priority_of}
use nebulea_os.Kernel.Ends.{Ends, Ends-then, Ends-mono}
use nebulea_os.Kernel.Steps.{with_process, added, queue_add-ok}
use nebulea_os.Queue.Counts.{count, count-insert}
use nebulea_os.Process.Scheduler.{wakeup, wakeup_from, wakeup_process, set_state}

-- A process that sleeps, and whose date is reached.
abbrev pub due : Kernel → Ref → Bool
due k r = is_asleep (k.process_at r).state && leb (k.process_at r).wakeup_date k.time_count

-- A sleeping process is in no list.
abbrev pub SleepersFree : Kernel → Type 0
SleepersFree k = (r : Ref) → is_asleep (k.process_at r).state ≡ true → (k.process_at r).link ≡ none

-- A process that was due is activable and chained; any other keeps its state and its link.
abbrev pub WokenAt : Kernel → Kernel → Ref → Type 0
WokenAt k k' r =
    (((k'.process_at r).state ≡ (k.process_at r).state)
      × ((k'.process_at r).link ≡ (k.process_at r).link))
    ⊎ ((due k r ≡ true)
        × ((k'.process_at r).state ≡ State.activable)
        × ((k'.process_at r).link ≡ some Head.activable_list))

pub record Woken (k k' : Kernel) : Type 0 where
  pub each : (r : Ref) → WokenAt k k' r
  pub waited : (r : Ref) → (k'.process_at r).waited_sem ≡ (k.process_at r).waited_sem
  pub semaphores : k'.semaphore_at ≡ k.semaphore_at
  pub queues : k'.queue_at ≡ k.queue_at
  pub memory : k'.memory ≡ k.memory
  pub same_freed : k'.freed ≡ k.freed
  pub sleepers : SleepersFree k'
  pub kept :
      (r : Ref) → count r (k.lists Head.activable_list) ≤ count r (k'.lists Head.activable_list)
  pub others : (h : Head) → same_head Head.activable_list h ≡ false → k'.lists h ≡ k.lists h
  pub pids : (r : Ref) → (k'.process_at r).pid ≡ (k.process_at r).pid
  pub priorities : (r : Ref) → (k'.process_at r).priority ≡ (k.process_at r).priority
  pub dates : (r : Ref) → (k'.process_at r).wakeup_date ≡ (k.process_at r).wakeup_date
  pub table : k'.process_table ≡ k.process_table
  pub same_pid : k'.current_pid ≡ k.current_pid
  pub same_time : k'.time_count ≡ k.time_count

Woken-refl : (k : Kernel) → SleepersFree k → Woken k k
Woken-refl k s = record {
  sleepers = s;
  each = λ r. inl (refl, refl);
  waited = λ r. refl;
  semaphores = refl;
  queues = refl;
  memory = refl;
  same_freed = refl;
  kept = λ r. omega arith;
  others = λ h e. refl;
  pids = λ r. refl;
  priorities = λ r. refl;
  dates = λ r. refl;
  table = refl;
  same_pid = refl;
  same_time = refl;
}

Woken-trans : (a b c : Kernel) → Woken a b → Woken b c → Woken a c
Woken-trans a b c f g = record {
  sleepers = g.sleepers;
  each = λ r. ground (arith, f.each r, g.each r, f.dates r, f.same_time);
  waited = λ r. g.waited r ∙ f.waited r;
  semaphores = g.semaphores ∙ f.semaphores;
  queues = g.queues ∙ f.queues;
  memory = g.memory ∙ f.memory;
  same_freed = g.same_freed ∙ f.same_freed;
  kept = λ r. omega (arith, f.kept r, g.kept r);
  others = λ h e. g.others h e ∙ f.others h e;
  pids = λ r. g.pids r ∙ f.pids r;
  priorities = λ r. g.priorities r ∙ f.priorities r;
  dates = λ r. g.dates r ∙ f.dates r;
  table = g.table ∙ f.table;
  same_pid = g.same_pid ∙ f.same_pid;
  same_time = g.same_time ∙ f.same_time;
}

-- The state after a process is woken.
abbrev activated : Ref → Kernel → Kernel
activated r k = with_process r (set_state State.activable (k.process_at r)) k

abbrev awake : Ref → Kernel → Kernel
awake r k = added r Head.activable_list (activated r k)

awake-Woken : (r : Ref) (k : Kernel) → SleepersFree k → due k r ≡ true → Woken k (awake r k)
awake-Woken r k s d = record {
  sleepers = λ x e. ground (arith, s x);
  each = λ x. ground arith;
  waited = λ x. ground arith;
  semaphores = refl;
  queues = refl;
  memory = refl;
  same_freed = refl;
  kept = λ x.
      ground (arith, count-insert (priority_of (activated r k)) r (k.lists Head.activable_list) x);
  others = λ h e. rw e;
  pids = λ x. ground arith;
  priorities = λ x. ground arith;
  dates = λ x. ground arith;
  table = refl;
  same_pid = refl;
  same_time = refl;
}

-- One round wakes the process of the slot, if it is due.
wakeup-Woken :
    (o : Option Ref) (k : Kernel)
    → SleepersFree k
    → Ends (λ _ k'. Woken k k' × ((r : Ref) → o ≡ some r → due k' r ≡ false)) (wakeup o k)
unfolding wakeup ◌>>=◌
wakeup-Woken none k s = (Woken-refl k s, λ r e. cc)
wakeup-Woken (some r) k s = elim (Bool-cases (due k r)) [
  | inl d ↦ rw d (
      rw (queue_add-ok r Head.activable_list (activated r k) (ground (arith, s r)))
        (awake-Woken r k s d, λ x e. ground arith))
  | inr n ↦ rw n (Woken-refl k s, λ x e. ground arith)
]

due-Woken : (a b : Kernel) (r : Ref) → Woken a b → due a r ≡ false → due b r ≡ false
due-Woken a b r w d = ground (arith, w.each r, w.dates r, w.same_time)

-- After the loop nobody in its range is due.
wakeup_from-Woken :
    (n i : ℕ) (k : Kernel)
    → SleepersFree k
    → Ends
        (λ _ k'.
          Woken k k'
          × ((j : ℕ) (r : Ref) → i ≤ j → j < i + n → k.process_table j ≡ some r → due k' r ≡ false))
        (wakeup_from n i k)
unfolding wakeup_from ◌>>=◌
wakeup_from-Woken zero i k s = (Woken-refl k s, λ j r a b e. absurd (omega arith))
wakeup_from-Woken (suc n) i k s =
    Ends-then (λ _ k'. Woken k k' × ((r : Ref) → k.process_table i ≡ some r → due k' r ≡ false)) _
      (wakeup (k.process_table i) k) (λ _. wakeup_from n (i + 1))
      (wakeup-Woken (k.process_table i) k s)
      λ _ k1 (w, here).
        Ends-mono _ _ (wakeup_from n (i + 1) k1) (wakeup_from-Woken n (i + 1) k1 w.sleepers)
          λ _ k2 (w', there). (
            Woken-trans k k1 k2 w w',
            λ j r a b e. elim (Bool-cases (i == j)) [
              | inl now ↦
                  let same : i ≡ j = ground arith in due-Woken k1 k2 r w' (here r (rw same e))
              | inr later ↦ there j r (ground arith) (omega arith) (rw w.table e)
            ],
          )

-- Where no sleeping process is in a list, the loop that wakes does not fault; afterwards no
-- process of the table is due, and every process keeps its state and its link, or was due, is
-- activable and in the list of those. Activable processes stay so, and nothing else of the processes, lists and table changes.
pub wakeup_process-Woken :
    (k : Kernel)
    → SleepersFree k
    → Ends
        (λ _ k'.
          Woken k k'
          × ((pid : ℕ) (r : Ref) → pid < nb_proc → k.process_table pid ≡ some r → due k' r ≡ false))
        (wakeup_process k)
unfolding wakeup_process
wakeup_process-Woken k s =
    Ends-mono _ _ (wakeup_from nb_proc 0 k) (wakeup_from-Woken nb_proc 0 k s)
      λ _ k' (w, none_due). (w, λ pid r lt e. none_due pid r (omega arith) (omega arith) e)
