-- ===== src/Process/Table/Free.antt =====
-- The search for a free slot, which `__get_free_pid` of kernel/process.c, `__get_free_fid` of
-- kernel/message_queue.c and `__get_free_sem` of kernel/semaphore.c share.
use nebulea_os.Base.{
  ℕ, zero, suc, ◌+◌, ◌≤◌, ◌<◌, ◌≡◌, ◌==◌, refl, Option, none, some, true, arith, Bool-cases,
  Option-cases, inl, inr,
}
use nebulea_os.Kernel.Types.{Kernel, nb_proc, nb_queue, nb_semaphore}
use nebulea_os.Process.Table.{is_some, first_free, get_free_pid}
use nebulea_os.MessageQueue.Table.{get_free_fid}
use nebulea_os.Semaphore.Table.{get_free_sem}

-- The slots from `i` up to `j` are taken.
abbrev pub Taken : {A : Type 0} → (ℕ → Option A) → (i j : ℕ) → Type 0
Taken table i j = (m : ℕ) → i ≤ m → m < j → is_some (table m) ≡ true

-- The answer of a search in `n` slots from `i` on: the first free one, or none is free.
abbrev pub FirstFree : {A : Type 0} → (ℕ → Option A) → (n i : ℕ) → Option ℕ → Type 0
FirstFree table n i none = Taken table i (i + n)
FirstFree table n i (some j) = (i ≤ j) × (j < i + n) × (table j ≡ none) × Taken table i j

Taken-step :
    {A : Type 0} (table : ℕ → Option A) (i j : ℕ) (a : A)
    → table i ≡ some a
    → Taken table (i + 1) j
    → Taken table i j
Taken-step table i j a e t m l h = elim (Bool-cases (m == i)) [
  | inl here ↦ let same : m ≡ i = ground arith in rw same (rw e refl)
  | inr there ↦ t m (ground arith) h
]

FirstFree-step :
    {A : Type 0} (table : ℕ → Option A) (n i : ℕ) (a : A) (o : Option ℕ)
    → table i ≡ some a
    → FirstFree table n (i + 1) o
    → FirstFree table (suc n) i o
FirstFree-step table n i a none e f =
    Taken-step table i (i + suc n) a e (λ m l h. f m l (omega arith))
FirstFree-step table n i a (some j) e (l, h, free, t) =
    (omega arith, omega arith, free, Taken-step table i j a e t)

first_free-free :
    {A : Type 0} (table : ℕ → Option A) (n i : ℕ)
    → table i ≡ none
    → first_free table (suc n) i ≡ some i
unfolding first_free
first_free-free table n i e = rw (e, first_free) refl

first_free-taken :
    {A : Type 0} (table : ℕ → Option A) (n i : ℕ) (a : A)
    → table i ≡ some a
    → first_free table (suc n) i ≡ first_free table n (i + 1)
unfolding first_free
first_free-taken table n i a e = rw (e, first_free) refl

no_rounds : {A : Type 0} (table : ℕ → Option A) (i : ℕ) → first_free table zero i ≡ none
unfolding first_free
no_rounds table i = refl

first_free-FirstFree :
    {A : Type 0} (table : ℕ → Option A) (n i : ℕ) → FirstFree table n i (first_free table n i)
first_free-FirstFree table zero i = rw (no_rounds table i) (λ m l h. absurd (omega arith))
first_free-FirstFree table (suc n) i = elim (Option-cases (table i)) [
  | inl free ↦
      rw (first_free-free table n i free)
        (omega arith, omega arith, free, λ m l h. absurd (omega arith))
  | inr (a, e) ↦ rw (first_free-taken table n i a e) (
      FirstFree-step table n i a (first_free table n (i + 1)) e
        (first_free-FirstFree table n (i + 1)))
]

-- The pid, the message queue and the semaphore that are handed out are the first free ones of
-- their tables, and where none is handed out every slot of the table is taken.
pub free_slots-FirstFree :
    (k : Kernel)
    → FirstFree k.process_table nb_proc 0 (get_free_pid k)
      × FirstFree k.queue_table nb_queue 0 (get_free_fid k)
      × FirstFree k.semaphore_table nb_semaphore 0 (get_free_sem k)
unfolding get_free_pid get_free_fid get_free_sem
free_slots-FirstFree k = (
  first_free-FirstFree k.process_table nb_proc 0,
  first_free-FirstFree k.queue_table nb_queue 0,
  first_free-FirstFree k.semaphore_table nb_semaphore 0,
)
