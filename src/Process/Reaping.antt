-- ===== src/Process/Reaping.antt =====
-- What `__finish_zombie` of kernel/process.c leaves, in `waitpid` and where a process that has waited goes on.
use nebulea_os.Base.{
  ℕ, suc, ◌<◌, ◌≡◌, refl, ◌∙◌, true, false, not, none, some, ltb, leb, ◌==◌, ◌&&◌, update, arith,
  if◌then◌else◌, Bool-cases, ◌⊎◌, inl, inr,
}
use nebulea_os.Base.Int.{pos}
use nebulea_os.Kernel.Types.{
  Ref, State, Head, Resume, Kernel, nb_proc, user_memory_start, is_zombie,
}
use nebulea_os.Kernel.Exec.{◌>>=◌, on_option, ok, value}
use nebulea_os.Kernel.Steps.{with_process, added, queue_add-ok}
use nebulea_os.Kernel.Ends.{Ends, Ends-then}
use nebulea_os.Queue.Counts.{count, count-insert}
use nebulea_os.Process.Scheduler.{set_state}
use nebulea_os.Process.Ending.{
  finish_zombie, finish_fatherless, remove_from_children, store_retval, without_child,
}
use nebulea_os.Process.Waitpid.{waitpid, wait_one}
use nebulea_os.Process.Children.{has_pid, LosesChild, without_child-LosesChild}
use nebulea_os.Resume.{resume_current, resume_at, end_wait_any}

-- `r` is the process of the pid, in no list; `me` is the current one, which has a child of that pid.
pub record CanReap (pid retvalp : ℕ) (me r : Ref) (k : Kernel) : Type 0 where
  pub here : k.process_table k.current_pid ≡ some me
  pub child : k.process_table pid ≡ some r
  pub free : (k.process_at r).link ≡ none
  pub apart : (r == me) ≡ false
  pub listed : has_pid pid (k.process_at me).children ≡ true
  pub address : (not (retvalp == 0) && ltb retvalp user_memory_start) ≡ false

-- The value that the process ended with is stored, unless the address is null; its pid is free, and it is no child of
-- `me` any more, but stands in the list of those that will be freed. No other process and no other entry changes.
pub record Reaped (pid retvalp : ℕ) (me r : Ref) (k k' : Kernel) : Type 0 where
  pub memory : k'.memory ≡ (
      if retvalp == 0
      then k.memory
      else update k.memory k.cr3 (update (k.memory k.cr3) retvalp (k.process_at r).retval))
  pub table : k'.process_table ≡ update k.process_table pid none
  pub children : LosesChild pid (k.process_at me).children (k'.process_at me).children
  pub state : (k'.process_at r).state ≡ State.finished
  pub link : (k'.process_at r).link ≡ some Head.finished_list
  pub listed : count r (k'.lists Head.finished_list) ≡ suc (count r (k.lists Head.finished_list))
  pub others : (p : Ref) → (p == me) ≡ false → (p == r) ≡ false → k'.process_at p ≡ k.process_at p
  pub current : k'.current_pid ≡ k.current_pid

-- The states behind the three parts of `__finish_zombie`.
abbrev stored : ℕ → Ref → Kernel → Kernel
stored retvalp r k = record k {
  memory =
      if retvalp == 0
      then k.memory
      else update k.memory k.cr3 (update (k.memory k.cr3) retvalp (k.process_at r).retval);
}

abbrev disowned : ℕ → Ref → Kernel → Kernel
disowned pid me k =
    with_process me
      (record (k.process_at me) { children = without_child pid (k.process_at me).children }) k

abbrev pub fatherless : ℕ → Ref → Kernel → Kernel
fatherless pid r k =
    record (added r Head.finished_list
      (with_process r (set_state State.finished (k.process_at r)) k)) {
        process_table = update k.process_table pid none;
      }

store_retval-ok :
    (pid retvalp : ℕ) (r : Ref) (k : Kernel)
    → k.process_table pid ≡ some r
    → (not (retvalp == 0) && ltb retvalp user_memory_start) ≡ false
    → store_retval retvalp pid k ≡ ok tt (stored retvalp r k)
unfolding store_retval ◌>>=◌
store_retval-ok pid retvalp r k child address = elim (Bool-cases (retvalp == 0)) [
  | inl null ↦ rw null refl
  | inr there ↦
      let user : ltb retvalp user_memory_start ≡ false = ground (arith, address) in
      rw (there, user, child) refl
]

remove_from_children-ok :
    (pid father : ℕ) (me : Ref) (k : Kernel)
    → k.process_table father ≡ some me
    → remove_from_children pid (some father) k ≡ ok tt (disowned pid me k)
unfolding remove_from_children ◌>>=◌
remove_from_children-ok pid father me k here = rw here refl

pub finish_fatherless-ok :
    (pid : ℕ) (r : Ref) (k : Kernel)
    → k.process_table pid ≡ some r
    → (k.process_at r).link ≡ none
    → finish_fatherless pid k ≡ ok tt (fatherless pid r k)
unfolding finish_fatherless ◌>>=◌
finish_fatherless-ok pid r k child free =
    let self : (r == r) ≡ true = ground arith in
    let k1 : Kernel = with_process r (set_state State.finished (k.process_at r)) k in
    let unlinked : (k1.process_at r).link ≡ none = rw self free in
    rw (child, queue_add-ok r Head.finished_list k1 unlinked) refl

pub count-fatherless :
    (pid : ℕ) (r : Ref) (k : Kernel)
    → count r ((fatherless pid r k).lists Head.finished_list)
      ≡ suc (count r (k.lists Head.finished_list))
count-fatherless pid r k =
    let self : (r == r) ≡ true = ground arith in
    count-insert _ r (k.lists Head.finished_list) r ∙ rw self refl

finish_zombie-Reaped :
    (pid retvalp : ℕ) (me r : Ref) (k : Kernel)
    → CanReap pid retvalp me r k
    → Ends (λ _ k'. Reaped pid retvalp me r k k') (finish_zombie pid retvalp k)
unfolding finish_zombie ◌>>=◌
finish_zombie-Reaped pid retvalp me r k can =
    let same_r : (r == r) ≡ true = ground arith in
    let same_me : (me == me) ≡ true = ground arith in
    let ne : (me == r) ≡ false = ground (arith, can.apart) in
    let k1 : Kernel = stored retvalp r k in
    let k2 : Kernel = disowned pid me k1 in
    let unlinked : (k2.process_at r).link ≡ none = rw ne (can.free) in
    rw
      (
        store_retval-ok pid retvalp r k can.child can.address,
        remove_from_children-ok pid k.current_pid me k1 can.here,
        finish_fatherless-ok pid r k2 can.child unlinked,
      )
      (record {
        memory = refl;
        table = refl;
        children =
            rw (can.apart, same_me)
              (without_child-LosesChild pid (k.process_at me).children can.listed);
        state = rw same_r refl;
        link = rw same_r refl;
        listed = count-fatherless pid r k2;
        others = λ p a b.
            let a' : (me == p) ≡ false = ground (arith, a) in
            let b' : (r == p) ≡ false = ground (arith, b) in rw (a', b') refl;
        current = refl;
      })

-- For a pid below NBPROC, which is among the children of the current process and whose process is
-- a zombie child of it, in no list and another than the current one, and an address that is null
-- or in user memory, waitpid returns the pid at once, without a fault: the value of the child is
-- stored at the address, unless that is null, its pid is free, the first child of that pid is
-- left out of the father's children, the others staying in their order, the child is in the list
-- of those that will be freed, and no other process and no other entry changes.
pub waitpid-Reaped :
    (pid retvalp : ℕ) (me r : Ref) (k : Kernel)
    → CanReap pid retvalp me r k
    → pid < nb_proc
    → (k.process_at r).father_pid ≡ some k.current_pid
    → is_zombie (k.process_at r).state ≡ true
    → Ends
        (λ v k'. (v ≡ value (pos pid)) × Reaped pid retvalp me r k k')
        (waitpid (pos pid) retvalp k)
unfolding waitpid wait_one on_option ◌>>=◌
waitpid-Reaped pid retvalp me r k can small father ended =
    let below : leb nb_proc pid ≡ false = ground (arith, small) in
    let mine : (k.current_pid == k.current_pid) ≡ true = ground arith in
    rw (can.address, below, can.child, on_option)
      (rw (father, mine, ended)
        (Ends-then (λ _ k'. Reaped pid retvalp me r k k') _ (finish_zombie pid retvalp k) _
          (finish_zombie-Reaped pid retvalp me r k can) (λ u k' reaped. (refl, reaped))))

-- A process that has waited in waitpid, for any child and told which one ended, or for that
-- child, goes on without a fault where that pid is among its children, the child is in no list
-- and the address is null or in user memory: waitpid returns the pid of the child, the value of
-- the child is stored at the address, unless that is null, its pid is free, the first child of
-- that pid is left out of the father's children, the others staying in their order, and the child
-- is in the list of those that will be freed.
pub resume_current-Reaped :
    (pid retvalp : ℕ) (me r : Ref) (k : Kernel)
    → CanReap pid retvalp me r k
    → ((k.process_at me).resume ≡ Resume.waiting_for pid retvalp)
      ⊎ (((k.process_at me).resume ≡ Resume.waiting_any retvalp)
          × ((k.process_at me).waited_pid ≡ pid))
    → Ends (λ v k'. (v ≡ some (pos pid)) × Reaped pid retvalp me r k k') (resume_current k)
unfolding resume_current resume_at end_wait_any ◌>>=◌
resume_current-Reaped pid retvalp me r k can (inl one) =
    rw (can.here, one)
      (Ends-then (λ _ k'. Reaped pid retvalp me r k k') _ (finish_zombie pid retvalp k) _
        (finish_zombie-Reaped pid retvalp me r k can) (λ u k' reaped. (refl, reaped)))
resume_current-Reaped pid retvalp me r k can (inr (any, told)) =
    rw (can.here, any)
      (rw (can.here, told)
        (Ends-then (λ _ k'. Reaped pid retvalp me r k k') _ (finish_zombie pid retvalp k) _
          (finish_zombie-Reaped pid retvalp me r k can) (λ u k' reaped. (refl, reaped))))
