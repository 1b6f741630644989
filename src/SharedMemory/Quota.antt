-- ===== src/SharedMemory/Quota.antt =====
-- The count of shared pages in `shm_create` of kernel/shared_memory.c.
use nebulea_os.Base.{
  ℕ, zero, suc, ◌+◌, ◌≤◌, ◌≡◌, refl, ap, ◌∙◌, Bool, true, false, Option, none, some, arith,
}
use nebulea_os.Base.Int.{pos, ◌+ℤ◌, leb_ℤ}
use nebulea_os.SharedMemory.Calls.{Shared, max_shared_pages, Strcpy, shm_create}

-- Calls of `shm_create` with a null key, one after the other
abbrev pub null_calls : Strcpy → ℕ → Shared → Option Shared
null_calls strcpy zero s = some s
null_calls strcpy (suc n) s = elim (shm_create strcpy true 0 0 s) [
  | none ↦ none
  | some (address, t) ↦ null_calls strcpy n t
]

one_more : (p : ℕ) → pos p +ℤ pos 1 ≡ pos (suc p)
one_more p = ground arith

count_up :
    (strcpy : Strcpy) (n p : ℕ) (s : Shared)
    → n + p ≤ 100
    → s.pages ≡ pos p
    → null_calls strcpy n s ≡ some (record s { pages = pos (n + p) })
unfolding shm_create
count_up strcpy zero p s h e = ap (λ z. some (record s { pages = z })) (e ∙ ap pos (omega arith))
count_up strcpy (suc n) p s h e =
    let room : leb_ℤ max_shared_pages s.pages ≡ false = rw e (ground arith) in
    let next : s.pages +ℤ pos 1 ≡ pos (suc p) = rw e (one_more p) in
    rw (null_calls, shm_create, room)
      (count_up strcpy n (suc p) (record s { pages = s.pages +ℤ pos 1 }) (omega arith) next
        ∙ ap (λ z. some (record s { pages = pos z })) (omega arith))

-- Where no shared page is counted, 100 calls of shm_create with a null key leave the table as it
-- is, and then every call of shm_create returns null, for any key.
pub null_calls-shm_create :
    (strcpy : Strcpy) (s : Shared)
    → s.pages ≡ pos 0
    → (s' : Shared) × (null_calls strcpy 100 s ≡ some s')
      × (s'.map ≡ s.map)
      × ((allocated : Bool) (key_address key : ℕ)
          → shm_create strcpy allocated key_address key s' ≡ some (0, s'))
unfolding shm_create
null_calls-shm_create strcpy s e = (
  record s { pages = pos 100 },
  count_up strcpy 100 0 s (omega arith) e,
  refl,
  λ allocated key_address key. refl,
)
