-- ===== src/Kernel/Chained.antt =====
-- The links of the processes and the lists of the queues agree.
use nebulea_os.Base.{
  ℕ, ◌≡◌, ◌≢◌, refl, ap, sym, ◌∙◌, true, false, Option, none, some, List, [], arith, if◌then◌else◌,
  update, Bool-cases, Option-cases, inl, inr,
}
use nebulea_os.Kernel.Types.{Ref, Head, same_head, Process, Kernel}
use nebulea_os.Kernel.Exec.{Exec, ◌>>=◌, modify_process, on_option}
use nebulea_os.Kernel.Lists.{
  set_list, update_list, priority_of, set_link, link_into, unlink_from, unlink_top, queue_add,
  queue_del, queue_out,
}
use nebulea_os.Kernel.Keeps.{Keeps, keeps, After, at}
use nebulea_os.Queue.{insert, top, without_top, delete}
use nebulea_os.Queue.Order.{IsSorted, insert-IsSorted, without_top-IsSorted}
use nebulea_os.Queue.Counts.{count, count-insert, count-delete, count-without_top, count-top}
use nebulea_os.Queue.Same.{IsSorted-Agree, delete-IsSorted}

-- How often a process with that link stands in the list of a head.
abbrev pub share : Option Head → Head → ℕ
share none h = 0
share (some g) h = if same_head g h then 1 else 0

-- A process stands once in the list that its link names, and in no other; every list ascends in
-- priority.
pub record Chained (k : Kernel) : Type 0 where
  pub counted : (r : Ref) (h : Head) → count r (k.lists h) ≡ share (k.process_at r).link h
  pub sorted : (h : Head) → IsSorted (priority_of k) (k.lists h)

-- Where two heads are the same, a property of one is one of the other.
same_head_subst : (P : Head → Type 0) (g h : Head) → same_head g h ≡ true → P g → P h
same_head_subst P Head.activable_list Head.activable_list e p = p
same_head_subst P Head.finished_list Head.finished_list e p = p
same_head_subst P Head.waiting_pid_list Head.waiting_pid_list e p = p
same_head_subst P (Head.queue_waiters q) (Head.queue_waiters r) e p =
    let same : q ≡ r = ground arith in rw (← same) p
same_head_subst P (Head.semaphore_waiters q) (Head.semaphore_waiters r) e p =
    let same : q ≡ r = ground arith in rw (← same) p
same_head_subst P Head.activable_list Head.finished_list e p = cc
same_head_subst P Head.activable_list Head.waiting_pid_list e p = cc
same_head_subst P Head.activable_list (Head.queue_waiters r) e p = cc
same_head_subst P Head.activable_list (Head.semaphore_waiters r) e p = cc
same_head_subst P Head.finished_list Head.activable_list e p = cc
same_head_subst P Head.finished_list Head.waiting_pid_list e p = cc
same_head_subst P Head.finished_list (Head.queue_waiters r) e p = cc
same_head_subst P Head.finished_list (Head.semaphore_waiters r) e p = cc
same_head_subst P Head.waiting_pid_list Head.activable_list e p = cc
same_head_subst P Head.waiting_pid_list Head.finished_list e p = cc
same_head_subst P Head.waiting_pid_list (Head.queue_waiters r) e p = cc
same_head_subst P Head.waiting_pid_list (Head.semaphore_waiters r) e p = cc
same_head_subst P (Head.queue_waiters q) Head.activable_list e p = cc
same_head_subst P (Head.queue_waiters q) Head.finished_list e p = cc
same_head_subst P (Head.queue_waiters q) Head.waiting_pid_list e p = cc
same_head_subst P (Head.queue_waiters q) (Head.semaphore_waiters r) e p = cc
same_head_subst P (Head.semaphore_waiters q) Head.activable_list e p = cc
same_head_subst P (Head.semaphore_waiters q) Head.finished_list e p = cc
same_head_subst P (Head.semaphore_waiters q) Head.waiting_pid_list e p = cc
same_head_subst P (Head.semaphore_waiters q) (Head.queue_waiters r) e p = cc

same_head_eq : (g h : Head) → same_head g h ≡ true → g ≡ h
same_head_eq g h e = same_head_subst (λ x. g ≡ x) g h e refl

-- After a change of one process's link and of one list: the lists stay right if the new list has
-- each element as often as the links say.
module _ (k : Kernel) (c : Chained k) (r : Ref) (h : Head) (l : List Ref) (link : Option Head) where
  abbrev relinked : Kernel
  relinked = record k {
    lists = update_list k.lists h l;
    process_at = update k.process_at r (set_link link (k.process_at r));
  }

  relinked-Chained :
      ((r' : Ref) → count r' l ≡ share (relinked.process_at r').link h)
      → ((h' : Head) → same_head h h' ≡ false → share link h' ≡ share (k.process_at r).link h')
      → IsSorted (priority_of k) l
      → Chained relinked
  relinked-Chained here there s = record {
    counted = λ r' h'. elim (Bool-cases (same_head h h')) [
      | inl e ↦ rw e (rw (← same_head_eq h h' e) (here r'))
      | inr e ↦ rw e (ground (arith, there h' e, c.counted r' h'))
    ];
    sorted = λ h'. elim (Bool-cases (same_head h h')) [
      | inl e ↦
          rw e (IsSorted-Agree (priority_of k) (priority_of relinked) l (λ x _. ground arith) s)
      | inr e ↦ rw e (
          IsSorted-Agree (priority_of k) (priority_of relinked) (k.lists h') (λ x _. ground arith)
            (c.sorted h'))
    ];
  }

same_head_refl : (h : Head) → same_head h h ≡ true
same_head_refl Head.activable_list = refl
same_head_refl Head.finished_list = refl
same_head_refl Head.waiting_pid_list = refl
same_head_refl (Head.queue_waiters q) = ground arith
same_head_refl (Head.semaphore_waiters s) = ground arith

some_of_share : (l : Option Head) (h : Head) → share l h ≢ 0 → l ≡ some h
some_of_share none h n = absurd (n refl)
some_of_share (some g) h n = ap some (same_head_eq g h (ground arith))

module _ (r : Ref) (h : Head) where
  link_into-Chained :
      (k : Kernel) → Chained k → (k.process_at r).link ≡ none → After Chained (link_into r h k)
  unfolding link_into ◌>>=◌
  link_into-Chained k c free =
      relinked-Chained k c r h (insert (priority_of k) r (k.lists h)) (some h)
        (λ r'. ground (
          arith,
          count-insert (priority_of k) r (k.lists h) r',
          c.counted r' h,
          c.counted r h,
          same_head_refl h,
        ))
        (λ h' e. ground arith) (insert-IsSorted (priority_of k) r (k.lists h) (c.sorted h))

  unlink_from-Chained :
      (k : Kernel) → Chained k → (k.process_at r).link ≡ some h → After Chained (unlink_from r h k)
  unfolding unlink_from ◌>>=◌
  unlink_from-Chained k c on =
      relinked-Chained k c r h (delete r (k.lists h)) none
        (λ r'.
          ground
            (arith, count-delete r (k.lists h) r', c.counted r' h, c.counted r h, same_head_refl h))
        (λ h' e. ground arith) (delete-IsSorted (priority_of k) r (k.lists h) (c.sorted h))

  -- An element of a list is linked to its head.
  pub link_of_mem :
      (k : Kernel) → Chained k → count r (k.lists h) ≢ 0 → (k.process_at r).link ≡ some h
  link_of_mem k c mem = some_of_share (k.process_at r).link h (ground (arith, c.counted r h))

  unlink_top-Chained :
      (k : Kernel) → Chained k → top (k.lists h) ≡ some r → After Chained (unlink_top h r k)
  unfolding unlink_top ◌>>=◌
  unlink_top-Chained k c e =
      relinked-Chained k c r h (without_top (k.lists h)) none
        (λ r'. ground (
          arith,
          count-without_top (k.lists h) r r' e,
          c.counted r' h,
          c.counted r h,
          same_head_refl h,
        ))
        (λ h' e'. ground (arith, link_of_mem k c (count-top (k.lists h) r e)))
        (without_top-IsSorted (priority_of k) (k.lists h) (c.sorted h))

pub queue_add-Chained : (r : Ref) (h : Head) → Keeps Chained (queue_add r h)
unfolding queue_add on_option ◌>>=◌
queue_add-Chained r h = keeps (λ k c. elim (Option-cases (k.process_at r).link) [
  | inl free ↦ rw (free, on_option) (link_into-Chained r h k c free)
  | inr (g, on) ↦ rw (on, on_option) tt
])

pub queue_del-Chained : (r : Ref) → Keeps Chained (queue_del r)
unfolding queue_del on_option ◌>>=◌
queue_del-Chained r = keeps (λ k c. elim (Option-cases (k.process_at r).link) [
  | inl free ↦ rw (free, on_option) tt
  | inr (h, on) ↦ rw (on, on_option) (unlink_from-Chained r h k c on)
])

pub queue_out-Chained : (h : Head) → Keeps Chained (queue_out h)
unfolding queue_out on_option ◌>>=◌
queue_out-Chained h = keeps (λ k c. elim (Option-cases (top (k.lists h))) [
  | inl empty ↦ rw (empty, on_option) c
  | inr (r, out) ↦ rw (out, on_option) (unlink_top-Chained r h k c out)
])

-- A write to a process that leaves its link and its priority alone.
pub modify_process-Chained :
    (r : Ref) (f : Process → Process)
    → ((p : Process) → ((f p).link ≡ p.link) × ((f p).priority ≡ p.priority))
    → Keeps Chained (modify_process r f)
unfolding modify_process
modify_process-Chained r f same = keeps (λ k c. record {
  counted = λ r' h. ground (arith, c.counted r' h, same (k.process_at r));
  sorted = λ h.
      IsSorted-Agree (priority_of k)
        (priority_of (record k { process_at = update k.process_at r (f (k.process_at r)) }))
        (k.lists h) (λ x _. ground (arith, same (k.process_at r))) (c.sorted h);
})

-- A write to a process that is in no list.
pub modify_free-Chained :
    (r : Ref) (f : Process → Process) (k : Kernel)
    → Chained k
    → (k.process_at r).link ≡ none
    → (f (k.process_at r)).link ≡ none
    → After Chained (modify_process r f k)
unfolding modify_process
modify_free-Chained r f k c free free' = record {
  counted = λ r' h. ground (arith, c.counted r' h);
  sorted = λ h.
      IsSorted-Agree (priority_of k)
        (priority_of (record k { process_at = update k.process_at r (f (k.process_at r)) }))
        (k.lists h) (λ x e. ground (arith, c.counted r h)) (c.sorted h);
}

-- A process taken out of its list is in none when the rest runs.
pub queue_del-then :
    {A : Type 0} (r : Ref) (m : Exec A) (k : Kernel)
    → ((k' : Kernel) → Chained k' → (k'.process_at r).link ≡ none → After Chained (m k'))
    → Chained k
    → After Chained ((queue_del r >>= λ _. m) k)
unfolding queue_del unlink_from on_option ◌>>=◌
queue_del-then r m k next c = elim (Option-cases (k.process_at r).link) [
  | inl free ↦ rw (free, on_option) tt
  | inr (h, on) ↦ rw (on, on_option) (next _ (unlink_from-Chained r h k c on) (ground arith))
]

-- A process in no list may change, and then join one.
pub modify_add-Chained :
    (r : Ref) (f : Process → Process) (h : Head) (k : Kernel)
    → Chained k
    → (k.process_at r).link ≡ none
    → (f (k.process_at r)).link ≡ none
    → After Chained ((modify_process r f >>= λ _. queue_add r h) k)
unfolding modify_process ◌>>=◌
modify_add-Chained r f h k c free free' =
    at (queue_add-Chained r h) _ (modify_free-Chained r f k c free free')

-- To initialise a list that is empty changes nothing.
pub set_list-Chained :
    (h : Head) (k : Kernel) → k.lists h ≡ [] → Chained k → After Chained (set_list h [] k)
unfolding set_list
set_list-Chained h k empty c = record {
  counted = λ r h'. elim (Bool-cases (same_head h h')) [
    | inl e ↦ rw e (
        ap (count r) (sym empty)
        ∙ same_head_subst (λ g. count r (k.lists h) ≡ share (k.process_at r).link g) h h' e
            (c.counted r h))
    | inr e ↦ rw e (c.counted r h')
  ];
  sorted =
      λ h'. elim (Bool-cases (same_head h h')) [ inl e ↦ rw e tt | inr e ↦ rw e (c.sorted h') ];
}
