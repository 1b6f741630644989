-- ===== src/Process/Scheduler/Electing.antt =====
-- `__scheduler` of kernel/process.c as a whole: the choice of a process and the switch to it.
use nebulea_os.Base.{
  ℕ, ◌<◌, ◌≡◌, ◌≢◌, refl, ◌∙◌, ◌+◌, ◌==◌, ◌⊎◌, inl, inr, Bool-cases, true, false, none, some, List,
  [], ◌∷◌, arith, update,
}
use nebulea_os.Base.Int.{ℤ, leb_ℤ}
use nebulea_os.Kernel.Types.{Ref, Head, same_head, State, Resume, Kernel, nb_proc, is_asleep}
use nebulea_os.Kernel.Exec.{ok, ◌>>=◌}
use nebulea_os.Kernel.Lists.{priority_of}
use nebulea_os.Kernel.Keeps.{at}
use nebulea_os.Kernel.Ends.{Ends, Ends-then, Ends-After}
use nebulea_os.Kernel.Steps.{with_process, removed_top, queue_out-ok}
use nebulea_os.Kernel.Chained.{Chained}
use nebulea_os.Queue.{top}
use nebulea_os.Queue.Order.{AtMost, top-AtMost}
use nebulea_os.Queue.Counts.{count, count-top, count-without_top}
use nebulea_os.Process.Scheduler.{
  elect, scheduler, set_state, virtual_ctx_sw, free_finished_process, wakeup_process,
}
use nebulea_os.Process.Chains.Scheduling.{
  elect-Chained, free_finished_process-Chained, wakeup_process-Chained,
}
use nebulea_os.Process.Scheduler.Freeing.{NoneHas, Freed, free_finished_process-Freed}
use nebulea_os.Process.Scheduler.Waking.{SleepersFree, due, Woken, wakeup_process-Woken}

AtMost-count :
    (prio : Ref → ℤ) (p : ℤ) (l : List Ref) (x : Ref)
    → AtMost prio p l
    → count x l ≢ 0
    → leb_ℤ (prio x) p ≡ true
AtMost-count prio p [] x a m = absurd (m refl)
AtMost-count prio p (y ∷ ys) x a m = ground (arith, AtMost-count prio p ys x a.1)

-- The state after the switch from `old` to `new`.
abbrev switched_to : Resume → (new old : Ref) → Kernel → Kernel
switched_to r new old k =
    let k1 : Kernel = removed_top new Head.activable_list k in
    let k2 : Kernel = with_process new (set_state State.elected (k1.process_at new)) k1 in
    let k3 : Kernel = record k2 {
      current_pid = (k2.process_at new).pid;
      cr3 = (k2.process_at new).cr3;
    } in
    record k3 { process_at = update k3.process_at old (record (k3.process_at old) { resume = r }) }

elect-ok :
    (r : Resume) (new old : Ref) (k : Kernel)
    → top (k.lists Head.activable_list) ≡ some new
    → k.lists Head.finished_list ≡ []
    → k.process_table k.current_pid ≡ some old
    → elect r k ≡ ok tt (switched_to r new old k)
unfolding elect virtual_ctx_sw ◌>>=◌
elect-ok r new old k chosen done here =
    rw (queue_out-ok new Head.activable_list k chosen) (rw (done, here))

-- The states in which the scheduler is called, by the process `old`.
pub record CanSchedule (old : Ref) (k : Kernel) : Type 0 where
  pub chained : Chained k
  pub sleepers : SleepersFree k
  pub none_finished : NoneHas k.current_pid k (k.lists Head.finished_list)
  pub here : k.process_table k.current_pid ≡ some old
  pub ready : (r : Ref) × (count r (k.lists Head.activable_list) ≢ 0)

-- What becomes of a process that is not elected: it keeps its state, and its link unless it was
-- finished; or it was due to wake, is activable and in the list of those.
abbrev pub PassedOver : Kernel → Kernel → Ref → Type 0
PassedOver k k' r =
    (((k'.process_at r).state ≡ (k.process_at r).state)
      × ((count r (k.lists Head.finished_list) ≢ 0)
          ⊎ ((k'.process_at r).link ≡ (k.process_at r).link)))
    ⊎ ((due k r ≡ true)
        × ((k'.process_at r).state ≡ State.activable)
        × (count r (k'.lists Head.activable_list) ≢ 0))

-- What the scheduler did: `new` runs in its own address space, where it is to go on is what was
-- saved in it, and nobody who may run has a higher priority. Who was due to wake may run, and the
-- memory of who had finished is given back, once.
pub record Scheduled (resume : Resume) (old : Ref) (k : Kernel) (new : Ref) (k' : Kernel)
    : Type 0 where
  pub running : (k'.process_at new).state ≡ State.elected
  pub unlinked : (k'.process_at new).link ≡ none
  pub pid : k'.current_pid ≡ (k.process_at new).pid
  pub space : k'.cr3 ≡ (k'.process_at new).cr3
  pub saved : (k'.process_at old).resume ≡ resume
  pub highest :
      (r : Ref)
      → count r (k'.lists Head.activable_list) ≢ 0
      → leb_ℤ (k'.process_at r).priority (k'.process_at new).priority ≡ true
  pub chosen : (count new (k.lists Head.activable_list) ≢ 0) ⊎ (due k new ≡ true)
  pub each : (r : Ref) → r ≢ new → PassedOver k k' r
  pub given_back :
      (r : Ref) → count r k'.freed ≡ count r k.freed + count r (k.lists Head.finished_list)
  pub waited : (r : Ref) → (k'.process_at r).waited_sem ≡ (k.process_at r).waited_sem
  pub semaphores : k'.semaphore_at ≡ k.semaphore_at
  pub queues : k'.queue_at ≡ k.queue_at
  pub memory : k'.memory ≡ k.memory
  pub lists :
      (h : Head)
      → same_head Head.finished_list h ≡ false
      → same_head Head.activable_list h ≡ false
      → k'.lists h ≡ k.lists h
  pub freed : k'.lists Head.finished_list ≡ []
  pub woken : (pid : ℕ) (r : Ref) → pid < nb_proc → k'.process_table pid ≡ some r → due k' r ≡ false
  pub listed :
      (pid : ℕ) (r : Ref)
      → pid < nb_proc
      → k.process_table pid ≡ some r
      → due k r ≡ true
      → r ≢ new
      → ((k'.process_at r).state ≡ State.activable) × (count r (k'.lists Head.activable_list) ≢ 0)
  pub candidates :
      (r : Ref)
      → count r (k.lists Head.activable_list) ≢ 0
      → r ≢ new
      → count r (k'.lists Head.activable_list) ≢ 0
  pub table : k'.process_table ≡ k.process_table
  pub still_chained : Chained k'

top-some : (l : List Ref) (r : Ref) → count r l ≢ 0 → (t : Ref) × (top l ≡ some t)
unfolding top
top-some [] r h = absurd (h refl)
top-some (x ∷ []) r h = (x, refl)
top-some (x ∷ y ∷ ys) r h = top-some (y ∷ ys) y (ground arith)

-- What the first two parts leave of a process.
Freed-Woken-PassedOver :
    (k k1 k2 : Kernel) (r : Ref) → Freed k k1 → Woken k1 k2 → Chained k2 → PassedOver k k2 r
Freed-Woken-PassedOver k k1 k2 r f w c2 = elim (w.each r) [
  | inl (state, link) ↦ elim (Bool-cases (count r (k.lists Head.finished_list) == 0)) [
    | inl absent ↦ inl (state ∙ f.states r, inr (link ∙ f.links r (ground (arith, absent))))
    | inr present ↦ inl (state ∙ f.states r, inl (ground (arith, present)))
  ]
  | inr (d, state, link) ↦ inr (
    ground (arith, d, f.states r, f.dates r, f.same_time),
    state,
    ground (arith, link, c2.counted r Head.activable_list),
  )
]

Freed-Woken-chosen :
    (k k1 k2 : Kernel) (r : Ref)
    → Freed k k1
    → Woken k1 k2
    → Chained k1
    → Chained k2
    → count r (k2.lists Head.activable_list) ≢ 0
    → (count r (k.lists Head.activable_list) ≢ 0) ⊎ (due k r ≡ true)
Freed-Woken-chosen k k1 k2 r f w c1 c2 m = elim (w.each r) [
  | inl (state, link) ↦ inl (
      ground (
        arith,
        m,
        link,
        c2.counted r Head.activable_list,
        c1.counted r Head.activable_list,
        f.others Head.activable_list refl,
      ))
  | inr (d, state, link) ↦ inr (ground (arith, d, f.states r, f.dates r, f.same_time))
]

-- The last part of `__scheduler`, in the state that the first two leave.
elect-Scheduled :
    (resume : Resume) (old : Ref) (k k1 k2 : Kernel)
    → CanSchedule old k
    → Freed k k1
    → Woken k1 k2
    → ((pid : ℕ) (r : Ref) → pid < nb_proc → k1.process_table pid ≡ some r → due k2 r ≡ false)
    → Chained k1
    → Chained k2
    → Ends (λ _ k'. (new : Ref) × Scheduled resume old k new k') (elect resume k2)
elect-Scheduled resume old k k1 k2 can f w none_due c1 c2 =
    let ready = can.ready in
    let (new, chosen) =
      top-some (k2.lists Head.activable_list) ready.0
        (ground (arith, ready.1, w.kept ready.0, f.others Head.activable_list refl)) in
    let done : k2.lists Head.finished_list ≡ [] = w.others Head.finished_list refl ∙ f.emptied in
    let here : k2.process_table k2.current_pid ≡ some old =
      ground (arith, w.table, w.same_pid, f.table, f.same_pid, can.here) in
    rw (elect-ok resume new old k2 chosen done here) (
      new,
      record {
        running = ground arith;
        unlinked = ground arith;
        pid = ground (arith, w.pids new, f.pids new);
        space = ground arith;
        saved = ground arith;
        highest = λ r m. ground (
          arith,
          AtMost-count (priority_of k2) (priority_of k2 new) (k2.lists Head.activable_list) r (
              top-AtMost (priority_of k2) (k2.lists Head.activable_list) new
                (c2.sorted Head.activable_list) chosen),
          count-without_top (k2.lists Head.activable_list) new r chosen,
        );
        chosen =
            Freed-Woken-chosen k k1 k2 new f w c1 c2
              (count-top (k2.lists Head.activable_list) new chosen);
        each = λ r ne. ground (
          arith,
          Freed-Woken-PassedOver k k1 k2 r f w c2,
          count-without_top (k2.lists Head.activable_list) new r chosen,
        );
        given_back = λ r. ground (arith, w.same_freed, f.given_back r);
        waited = λ r. ground (arith, w.waited r, f.waited r);
        semaphores = w.semaphores ∙ f.semaphores;
        queues = w.queues ∙ f.queues;
        memory = w.memory ∙ f.memory;
        lists = λ h nf na. ground (arith, w.others h na, f.others h nf);
        listed = λ pid r lt e d ne. ground (
          arith,
          Freed-Woken-PassedOver k k1 k2 r f w c2,
          none_due pid r lt (ground (arith, f.table, e)),
          w.dates r,
          f.dates r,
          w.same_time,
          f.same_time,
          count-without_top (k2.lists Head.activable_list) new r chosen,
        );
        freed = done;
        woken = λ pid r lt e. ground (arith, none_due pid r, w.table);
        candidates = λ r m ne. ground (
          arith,
          count-without_top (k2.lists Head.activable_list) new r chosen,
          w.kept r,
          f.others Head.activable_list refl,
        );
        table = w.table ∙ f.table;
        still_chained =
            rw (elect-ok resume new old k2 chosen done here) at (at (elect-Chained resume) k2 c2);
      },
    )

Freed-SleepersFree : (k k1 : Kernel) → Chained k → SleepersFree k → Freed k k1 → SleepersFree k1
Freed-SleepersFree k k1 c s f r e =
    let asleep : is_asleep (k.process_at r).state ≡ true = rw (← f.states r) e in
    f.links r (ground (arith, c.counted r Head.finished_list, s r asleep)) ∙ s r asleep

-- Where links and lists agree, no sleeping process is in a list, no finished one has the current
-- pid, the current pid has a process and some process is activable, the scheduler does not fault.
-- It elects a process in its own address space, with where to go on saved in the old one, which
-- was activable or due to wake; no activable process has a higher priority. The memory of each
-- finished process is given back, once, and their list is empty. No process of the table is due
-- to wake: those that were are activable and in the list of those, but for the elected one; who
-- was activable still is, but for that one, and every other process keeps its state, and its link
-- unless it was finished.
pub scheduler-Scheduled :
    (resume : Resume) (old : Ref) (k : Kernel)
    → CanSchedule old k
    → Ends (λ _ k'. (new : Ref) × Scheduled resume old k new k') (scheduler resume k)
unfolding scheduler ◌>>=◌
scheduler-Scheduled resume old k can =
    Ends-then (λ _ k1. Freed k k1 × Chained k1) _ (free_finished_process k) _
      (Ends-After Chained _ (free_finished_process k)
        (at free_finished_process-Chained k can.chained)
        (free_finished_process-Freed k can.none_finished))
      λ _ k1 (f, c1).
        Ends-then _ _ (wakeup_process k1) _
          (Ends-After Chained _ (wakeup_process k1) (at wakeup_process-Chained k1 c1)
            (wakeup_process-Woken k1 (Freed-SleepersFree k k1 can.chained can.sleepers f)))
          λ _ k2 ((w, none_due), c2). elect-Scheduled resume old k k1 k2 can f w none_due c1 c2
