-- ===== src/Queue/Same.antt =====
-- The order of a queue of shared/queue.h of addresses: change of priorities, and `queue_del`.
use nebulea_os.Base.{ℕ, ◌≡◌, ◌≢◌, List, [], ◌∷◌, arith}
use nebulea_os.Base.Int.{ℤ}
use nebulea_os.Queue.{delete}
use nebulea_os.Queue.Order.{AtLeast, IsSorted}
use nebulea_os.Queue.Counts.{count}

-- The two priorities agree on the elements of the list.
abbrev pub Agree : (ℕ → ℤ) → (ℕ → ℤ) → List ℕ → Type 0
Agree f g xs = (r : ℕ) → count r xs ≢ 0 → f r ≡ g r

Agree-tail : (f g : ℕ → ℤ) (x : ℕ) (xs : List ℕ) → Agree f g (x ∷ xs) → Agree f g xs
Agree-tail f g x xs h r e = h r (ground arith)

Agree-head : (f g : ℕ → ℤ) (x : ℕ) (xs : List ℕ) → Agree f g (x ∷ xs) → f x ≡ g x
Agree-head f g x xs h = h x (ground arith)

AtLeast-Agree : (f g : ℕ → ℤ) (p : ℤ) (xs : List ℕ) → Agree f g xs → AtLeast f p xs → AtLeast g p xs
AtLeast-Agree f g p [] h a = tt
AtLeast-Agree f g p (x ∷ xs) h a =
    (rw (← Agree-head f g x xs h) (a.0), AtLeast-Agree f g p xs (Agree-tail f g x xs h) a.1)

pub IsSorted-Agree : (f g : ℕ → ℤ) (xs : List ℕ) → Agree f g xs → IsSorted f xs → IsSorted g xs
IsSorted-Agree f g [] h s = tt
IsSorted-Agree f g (x ∷ xs) h s =
    let tail = Agree-tail f g x xs h in
    (
      rw (← Agree-head f g x xs h) (AtLeast-Agree f g (f x) xs tail s.0),
      IsSorted-Agree f g xs tail s.1,
    )

AtLeast-delete :
    (f : ℕ → ℤ) (p : ℤ) (r : ℕ) (xs : List ℕ) → AtLeast f p xs → AtLeast f p (delete r xs)
unfolding delete
AtLeast-delete f p r [] a = tt
AtLeast-delete f p r (x ∷ xs) a = ground (arith, AtLeast-delete f p r xs a.1)

pub delete-IsSorted : (f : ℕ → ℤ) (r : ℕ) (xs : List ℕ) → IsSorted f xs → IsSorted f (delete r xs)
unfolding delete
delete-IsSorted f r [] s = tt
delete-IsSorted f r (x ∷ xs) s =
    ground (arith, AtLeast-delete f (f x) r xs s.0, delete-IsSorted f r xs s.1)
