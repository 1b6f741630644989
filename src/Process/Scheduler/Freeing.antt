-- ===== src/Process/Scheduler/Freeing.antt =====
-- `__free_finished_process` of kernel/process.c where no finished process has the current pid.
use nebulea_os.Base.{
  ℕ, zero, suc, ◌≡◌, ◌≢◌, refl, ◌∙◌, ◌-◌, ◌+◌, false, none, some, List, [], ◌∷◌, arith, length,
  find, update, Option-cases, inl, inr,
}
use nebulea_os.Kernel.Types.{Ref, Head, same_head, Kernel}
use nebulea_os.Kernel.Exec.{ok, ◌>>=◌, on_option}
use nebulea_os.Kernel.Lists.{queue_out, unlink_top, update_list, set_link}
use nebulea_os.Kernel.Ends.{Ends, Ends-mono}
use nebulea_os.Queue.{top, without_top}
use nebulea_os.Queue.Counts.{count, count-top, count-without_top}
use nebulea_os.Process.Scheduler.{
  free_process, free_all, free_finished, free_finished_process, with_pid,
}

-- No process of the list has that pid.
abbrev pub NoneHas : ℕ → Kernel → List Ref → Type 0
NoneHas pid k l = (r : Ref) → count r l ≢ 0 → (k.process_at r).pid ≢ pid

find-none : (pid : ℕ) (k : Kernel) (l : List Ref) → NoneHas pid k l → find (with_pid k pid) l ≡ none
find-none pid k [] h = refl
find-none pid k (x ∷ xs) h = ground (arith, h x, find-none pid k xs (λ r n. h r (ground arith)))

eq_nil_of_length : (l : List Ref) → length l ≡ 0 → l ≡ []
eq_nil_of_length [] e = refl
eq_nil_of_length (x ∷ xs) e = absurd (omega arith)

top-ne-none : (l : List Ref) → length l ≢ 0 → top l ≢ none
unfolding top
top-ne-none [] h e = h refl
top-ne-none (x ∷ []) h e = cc
top-ne-none (x ∷ y ∷ ys) h e = top-ne-none (y ∷ ys) (omega arith) e

length-without_top : (l : List Ref) → length (without_top l) ≡ length l - 1
unfolding without_top
length-without_top [] = refl
length-without_top (x ∷ []) = refl
length-without_top (x ∷ y ∷ ys) = omega (arith, length-without_top (y ∷ ys))

-- The memory of each process of the list is freed, once. All but that list, the links of its processes and `freed` is
-- left alone.
pub record Freed (k k' : Kernel) : Type 0 where
  pub given_back :
      (r : Ref) → count r k'.freed ≡ count r k.freed + count r (k.lists Head.finished_list)
  pub waited : (r : Ref) → (k'.process_at r).waited_sem ≡ (k.process_at r).waited_sem
  pub semaphores : k'.semaphore_at ≡ k.semaphore_at
  pub queues : k'.queue_at ≡ k.queue_at
  pub memory : k'.memory ≡ k.memory
  pub emptied : k'.lists Head.finished_list ≡ []
  pub others : (h : Head) → same_head Head.finished_list h ≡ false → k'.lists h ≡ k.lists h
  pub pids : (r : Ref) → (k'.process_at r).pid ≡ (k.process_at r).pid
  pub states : (r : Ref) → (k'.process_at r).state ≡ (k.process_at r).state
  pub priorities : (r : Ref) → (k'.process_at r).priority ≡ (k.process_at r).priority
  pub dates : (r : Ref) → (k'.process_at r).wakeup_date ≡ (k.process_at r).wakeup_date
  pub links :
      (r : Ref)
      → count r (k.lists Head.finished_list) ≡ 0
      → (k'.process_at r).link ≡ (k.process_at r).link
  pub table : k'.process_table ≡ k.process_table
  pub same_pid : k'.current_pid ≡ k.current_pid
  pub same_time : k'.time_count ≡ k.time_count

-- The states after the `queue_out` and after one round of the loop.
abbrev unlinked_top : Ref → Kernel → Kernel
unlinked_top r k = record k {
  lists = update_list k.lists Head.finished_list (without_top (k.lists Head.finished_list));
  process_at = update k.process_at r (set_link none (k.process_at r));
}

free_process-ok :
    (r : Ref) (k : Kernel)
    → (k.process_at r).pid ≢ k.current_pid
    → free_process r k ≡ ok tt (record k { freed = r ∷ k.freed })
unfolding free_process ◌>>=◌
free_process-ok r k h = ground arith

abbrev freed_top : Ref → Kernel → Kernel
freed_top r k = record k {
  lists = update_list k.lists Head.finished_list (without_top (k.lists Head.finished_list));
  process_at = update k.process_at r (set_link none (k.process_at r));
  freed = r ∷ k.freed;
}

Freed-trans :
    (r : Ref) (k k' : Kernel)
    → top (k.lists Head.finished_list) ≡ some r
    → Freed (freed_top r k) k'
    → Freed k k'
Freed-trans r k k' out f = record {
  given_back = λ x. ground (
    arith,
    f.given_back x,
    count-without_top (k.lists Head.finished_list) r x out,
    count-top (k.lists Head.finished_list) r out,
  );
  waited = λ x. f.waited x ∙ ground arith;
  semaphores = f.semaphores;
  queues = f.queues;
  memory = f.memory;
  emptied = f.emptied;
  others = λ h e. f.others h e ∙ rw e;
  pids = λ x. f.pids x ∙ ground arith;
  states = λ x. f.states x ∙ ground arith;
  priorities = λ x. f.priorities x ∙ ground arith;
  dates = λ x. f.dates x ∙ ground arith;
  links = λ x no.
      f.links x (ground (arith, count-without_top (k.lists Head.finished_list) r x out))
      ∙ ground (arith, count-top (k.lists Head.finished_list) r out);
  table = f.table;
  same_pid = f.same_pid;
  same_time = f.same_time;
}

free_all-Freed :
    (n : ℕ) (k : Kernel)
    → length (k.lists Head.finished_list) ≡ n
    → NoneHas k.current_pid k (k.lists Head.finished_list)
    → Ends (λ _ k'. Freed k k') (free_all n k)
unfolding free_all queue_out unlink_top on_option ◌>>=◌
free_all-Freed zero k e h = record {
  given_back = λ r.
      let empty : k.lists Head.finished_list ≡ [] =
        eq_nil_of_length (k.lists Head.finished_list) e in
      rw empty (omega arith);
  waited = λ r. refl;
  semaphores = refl;
  queues = refl;
  memory = refl;
  emptied = eq_nil_of_length (k.lists Head.finished_list) e;
  others = λ h e. refl;
  pids = λ r. refl;
  states = λ r. refl;
  priorities = λ r. refl;
  dates = λ r. refl;
  links = λ r no. refl;
  table = refl;
  same_pid = refl;
  same_time = refl;
}
free_all-Freed (suc n) k e h = elim (Option-cases (top (k.lists Head.finished_list))) [
  | inl empty ↦ absurd (top-ne-none (k.lists Head.finished_list) (omega arith) empty)
  | inr (r, out) ↦
      rw (out, on_option)
        (rw
          (free_process-ok r (unlinked_top r k)
            (ground (arith, h r (count-top (k.lists Head.finished_list) r out))))
          (Ends-mono (λ _. Freed (freed_top r k)) (λ _. Freed k) (free_all n (freed_top r k))
            (free_all-Freed n (freed_top r k)
              (omega (arith, length-without_top (k.lists Head.finished_list)))
              (λ x there same.
                h x (ground (arith, count-without_top (k.lists Head.finished_list) r x out))
                  (ground arith)))
            (λ _ k' f. Freed-trans r k k' out f)))
]

-- All finished processes are freed.
free_finished-Freed :
    (k : Kernel)
    → NoneHas k.current_pid k (k.lists Head.finished_list)
    → Ends (λ _ k'. Freed k k') (free_finished k)
unfolding ◌>>=◌
free_finished-Freed k h = free_all-Freed (length (k.lists Head.finished_list)) k refl h

-- Where no finished process has the current pid, freeing the finished processes does not fault
-- and leaves their list empty; the other lists, the pids, states, priorities and dates of all
-- processes, the links of those that were not finished, the table, the current pid and the time
-- are unchanged.
pub free_finished_process-Freed :
    (k : Kernel)
    → NoneHas k.current_pid k (k.lists Head.finished_list)
    → Ends (λ _ k'. Freed k k') (free_finished_process k)
unfolding free_finished_process on_option ◌>>=◌
free_finished_process-Freed k h =
    rw (find-none k.current_pid k (k.lists Head.finished_list) h, on_option)
      (free_finished-Freed k h)
