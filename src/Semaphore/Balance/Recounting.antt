-- ===== src/Semaphore/Balance/Recounting.antt =====
-- The steps of kernel/semaphore.c that change a count together with the list of the semaphore.
use nebulea_os.Base.{
  ℕ, suc, ◌≤◌, ◌<◌, ◌≡◌, refl, ◌∙◌, true, false, some, List, [], ◌∷◌, ◌==◌, arith, if◌then◌else◌,
  update, length, Bool-cases, Option-cases, inl, inr,
}
use nebulea_os.Base.Int.{ℤ, pos, pos_part, neg_part, ◌+ℤ◌, ◌-ℤ◌, to_short_self}
use nebulea_os.Kernel.Types.{Ref, Head, Process, Semaphore, Kernel}
use nebulea_os.Kernel.Exec.{Exec, Outcome, ok, fail, ◌>>=◌, ◌>>◌, on_option, modify_process}
use nebulea_os.Kernel.Lists.{queue_add, queue_out, link_into, unlink_top}
use nebulea_os.Kernel.Keeps.{Keeps, After, at, After-then}
use nebulea_os.Kernel.Chained.{Chained}
use nebulea_os.Kernel.Frames.{chained_rules, Chained-same}
use nebulea_os.Queue.{top, insert, without_top}
use nebulea_os.Semaphore.Table.{wake_waiter}
use nebulea_os.Semaphore.Chains.{wake_waiter-Chained}
use nebulea_os.Semaphore.Counting.{add_count, sub_count}
use nebulea_os.Semaphore.Balance.{Balanced, IsBalanced}

-- An element more, and one less.
length-insert : (prio : ℕ → ℤ) (x : ℕ) (xs : List ℕ) → length (insert prio x xs) ≡ suc (length xs)
unfolding insert
length-insert prio x [] = refl
length-insert prio x (y ∷ ys) = ground (arith, length-insert prio x ys)

length-without_top :
    (xs : List ℕ) (t : ℕ) → top xs ≡ some t → suc (length (without_top xs)) ≡ length xs
unfolding top without_top
length-without_top [] t e = cc
length-without_top (x ∷ []) t e = refl
length-without_top (x ∷ y ∷ ys) t e = ground (arith, length-without_top (y ∷ ys) t e)

-- The kernel with another value in a semaphore.
abbrev pub with_semaphore : Ref → Semaphore → Kernel → Kernel
with_semaphore s x k = record k { semaphore_at = update k.semaphore_at s x }

pub eq_refl : (r : ℕ) → (r == r) ≡ true
eq_refl r = ground arith

-- The counts of the semaphores, with that of one replaced.
abbrev Recounted : Kernel → Ref → ℤ → (Ref → Semaphore) → Type 0
Recounted k ref c g = (s : Ref) → (g s).count ≡ (if ref == s then c else (k.semaphore_at s).count)

update-Recounted :
    (k : Kernel) (ref : Ref) (x : Semaphore) → Recounted k ref x.count (update k.semaphore_at ref x)
update-Recounted k ref x s = ground arith

-- A semaphore changes together with the number of its waiting processes.
changed-Balanced :
    (k k' : Kernel) (ref : Ref) (c : ℤ)
    → IsBalanced k
    → Recounted k ref c k'.semaphore_at
    → ((s : Ref)
        → (ref == s) ≡ false
        → k'.lists (Head.semaphore_waiters s) ≡ k.lists (Head.semaphore_waiters s))
    → length (k'.lists (Head.semaphore_waiters ref)) ≡ neg_part c
    → pos_part c ≤ 32767
    → neg_part c ≤ 32767
    → (s : Ref) → Balanced k' s
changed-Balanced k k' ref c b counts others here h l s = elim (Bool-cases (ref == s)) [
  | inl e ↦
      let same : ref ≡ s = ground arith in
      rw (← same) record {
        waiting = rw (counts ref, eq_refl ref) here;
        high = rw (counts ref, eq_refl ref) h;
        low = rw (counts ref, eq_refl ref) l;
      }
  | inr e ↦ record {
    waiting = rw (counts s, e, others s e) (b.balanced s).waiting;
    high = rw (counts s, e) (b.balanced s).high;
    low = rw (counts s, e) (b.balanced s).low;
  }
]

-- What is chained and balanced.
both-IsBalanced :
    {A : Type 0} (o : Outcome A)
    → After Chained o
    → After (λ k. (s : Ref) → Balanced k s) o
    → After IsBalanced o
both-IsBalanced (ok a k) c b = record { linked = c; balanced = b }
both-IsBalanced (fail e) c b = tt

-- The count goes up by one and a waiting process leaves.
pub wake_waiter-IsBalanced :
    (k : Kernel) (ref : Ref) (c : ℤ) (g : Ref → Semaphore)
    → IsBalanced k
    → Recounted k ref c g
    → neg_part (k.semaphore_at ref).count ≡ suc (neg_part c)
    → pos_part c ≤ 32767
    → After IsBalanced (wake_waiter (Head.semaphore_waiters ref) (record k { semaphore_at = g }))
unfolding wake_waiter queue_out unlink_top queue_add link_into on_option ◌>>=◌
wake_waiter-IsBalanced k ref c g b counts e h =
    let k1 : Kernel = record k { semaphore_at = g } in
    both-IsBalanced (wake_waiter (Head.semaphore_waiters ref) k1)
      (at (wake_waiter-Chained (Head.semaphore_waiters ref)) k1
        (Chained-same k k1 refl refl b.linked))
      (elim (Option-cases (top (k.lists (Head.semaphore_waiters ref)))) [
        | inl empty ↦ rw (empty, on_option) tt
        | inr (r, out) ↦
            rw (out, on_option)
              (rw (eq_refl r, on_option)
                (changed-Balanced k _ ref c b counts (λ s e'. rw e' refl)
                  (rw (eq_refl ref) (
                    omega (
                      arith,
                      length-without_top (k.lists (Head.semaphore_waiters ref)) r out,
                      (b.balanced ref).waiting,
                    )))
                  h (omega (arith, (b.balanced ref).low))))
      ])

enqueue-Chained :
    (me : Ref) (f : Process → Process) (h : Head)
    → ((p : Process) → ((f p).link ≡ p.link) × ((f p).priority ≡ p.priority))
    → Keeps Chained (modify_process me f >> queue_add me h)
enqueue-Chained me f h same = search (chained_rules, same)

-- The count goes down by one, below zero, and the current process waits.
enqueue-IsBalanced :
    (k : Kernel) (ref me : Ref) (x : Semaphore) (f : Process → Process)
    → ((p : Process) → ((f p).link ≡ p.link) × ((f p).priority ≡ p.priority))
    → IsBalanced k
    → neg_part x.count ≡ suc (neg_part (k.semaphore_at ref).count)
    → pos_part x.count ≤ 32767
    → neg_part x.count ≤ 32767
    → After IsBalanced (
        (modify_process me f >> queue_add me (Head.semaphore_waiters ref)) (with_semaphore ref x k))
unfolding modify_process queue_add link_into on_option ◌>>=◌
enqueue-IsBalanced k ref me x f same b e h l =
    both-IsBalanced
      ((modify_process me f >> queue_add me (Head.semaphore_waiters ref)) (with_semaphore ref x k))
      (at (enqueue-Chained me f (Head.semaphore_waiters ref) same) (with_semaphore ref x k)
        (Chained-same k (with_semaphore ref x k) refl refl b.linked))
      (elim (Option-cases (f (k.process_at me)).link) [
        | inl free ↦ rw (eq_refl me) (
            rw (free, on_option)
              (changed-Balanced k _ ref x.count b (update-Recounted k ref x) (λ s e'. rw e' refl)
                (rw (eq_refl ref) (
                  length-insert _ me (k.lists (Head.semaphore_waiters ref))
                  ∙ omega (arith, (b.balanced ref).waiting)))
                h l))
        | inr (g, on) ↦ rw (eq_refl me) (rw (on, on_option) tt)
      ])

pub enqueue-then :
    {A : Type 0} (k : Kernel) (ref me : Ref) (x : Semaphore) (f : Process → Process)
    → ((p : Process) → ((f p).link ≡ p.link) × ((f p).priority ≡ p.priority))
    → IsBalanced k
    → neg_part x.count ≡ suc (neg_part (k.semaphore_at ref).count)
    → pos_part x.count ≤ 32767
    → neg_part x.count ≤ 32767
    → (m : Exec A) → Keeps IsBalanced m
    → After IsBalanced (
        (modify_process me f >>= λ _. (queue_add me (Head.semaphore_waiters ref) >>= λ _. m))
          (with_semaphore ref x k))
unfolding ◌>>=◌
enqueue-then k ref me x f same b e h l m km =
    After-then
      ((modify_process me f >> queue_add me (Head.semaphore_waiters ref)) (with_semaphore ref x k))
      (λ _. m) (enqueue-IsBalanced k ref me x f same b e h l) (λ _. km)

-- The count of a semaphore changes while nobody waits or leaves.
pub counted-IsBalanced :
    (k : Kernel) (ref : Ref) (x : Semaphore)
    → IsBalanced k
    → neg_part x.count ≡ neg_part (k.semaphore_at ref).count
    → pos_part x.count ≤ 32767
    → IsBalanced (with_semaphore ref x k)
counted-IsBalanced k ref x b e h = record {
  linked = Chained-same k (with_semaphore ref x k) refl refl b.linked;
  balanced =
      changed-Balanced k (with_semaphore ref x k) ref x.count b (update-Recounted k ref x)
        (λ s e'. refl) ((b.balanced ref).waiting ∙ omega arith) h
        (omega (arith, (b.balanced ref).low));
}

-- One more than a count that fits, and one less.
pub add_count-count :
    (s : Semaphore)
    → pos_part s.count < 32767
    → neg_part s.count ≤ 32767
    → (add_count s).count ≡ s.count +ℤ pos 1
add_count-count s h l = to_short_self (s.count +ℤ pos 1) (ground arith) (ground arith)

pub sub_count-count :
    (s : Semaphore)
    → pos_part s.count ≤ 32767
    → neg_part s.count ≤ 32767
    → (sub_count s).count ≡ s.count -ℤ pos 1
sub_count-count s h l = to_short_self (s.count -ℤ pos 1) (ground arith) (ground arith)
