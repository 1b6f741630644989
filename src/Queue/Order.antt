-- ===== src/Queue/Order.antt =====
-- The order of a queue of shared/queue.h.
use nebulea_os.Base.{◌≡◌, true, some, List, [], ◌∷◌, arith}
use nebulea_os.Base.Int.{ℤ, leb_ℤ}
use nebulea_os.Queue.{insert, top, without_top}

module _ {A : Type 0} (prio : A → ℤ) where
  -- No element of the list has a smaller priority.
  abbrev pub AtLeast : ℤ → List A → Type 0
  AtLeast p [] = Unit {0}
  AtLeast p (x ∷ xs) = (leb_ℤ p (prio x) ≡ true) × AtLeast p xs

  -- Priorities ascend from `head->next` on.
  abbrev pub IsSorted : List A → Type 0
  IsSorted [] = Unit {0}
  IsSorted (x ∷ xs) = AtLeast (prio x) xs × IsSorted xs

  AtLeast-mono : (p q : ℤ) (xs : List A) → leb_ℤ p q ≡ true → AtLeast q xs → AtLeast p xs
  AtLeast-mono p q [] h a = tt
  AtLeast-mono p q (x ∷ xs) h a = (ground arith, AtLeast-mono p q xs h a.1)

  AtLeast-insert :
      (p : ℤ) (x : A) (xs : List A)
      → leb_ℤ p (prio x) ≡ true
      → AtLeast p xs
      → AtLeast p (insert prio x xs)
  unfolding insert
  AtLeast-insert p x [] h a = (h, tt)
  AtLeast-insert p x (y ∷ ys) h a = ground (arith, AtLeast-insert p x ys h a.1)

  -- An insertion into a queue that ascends in priority leaves it ascending.
  pub insert-IsSorted : (x : A) (xs : List A) → IsSorted xs → IsSorted (insert prio x xs)
  unfolding insert
  insert-IsSorted x [] s = (tt, tt)
  insert-IsSorted x (y ∷ ys) s = ground (
    arith,
    AtLeast-insert (prio y) x ys,
    insert-IsSorted x ys s.1,
    AtLeast-mono (prio x) (prio y) ys,
  )

  AtLeast-delete : (p : ℤ) (xs : List A) → AtLeast p xs → AtLeast p (without_top xs)
  unfolding without_top
  AtLeast-delete p [] a = tt
  AtLeast-delete p (x ∷ []) a = tt
  AtLeast-delete p (x ∷ y ∷ ys) a = (a.0, AtLeast-delete p (y ∷ ys) a.1)

  pub without_top-IsSorted : (xs : List A) → IsSorted xs → IsSorted (without_top xs)
  unfolding without_top
  without_top-IsSorted [] s = tt
  without_top-IsSorted (x ∷ []) s = tt
  without_top-IsSorted (x ∷ y ∷ ys) s =
      (AtLeast-delete (prio x) (y ∷ ys) s.0, without_top-IsSorted (y ∷ ys) s.1)

  -- No element of the list has a greater priority.
  abbrev pub AtMost : ℤ → List A → Type 0
  AtMost p [] = Unit {0}
  AtMost p (x ∷ xs) = (leb_ℤ (prio x) p ≡ true) × AtMost p xs

  -- The element that leaves a queue which ascends in priority has the greatest priority in it.
  pub top-AtMost : (xs : List A) (t : A) → IsSorted xs → top xs ≡ some t → AtMost (prio t) xs
  unfolding top
  top-AtMost [] t s e = cc
  top-AtMost (x ∷ []) t s e = ground arith
  top-AtMost (x ∷ y ∷ ys) t s e = let rest = top-AtMost (y ∷ ys) t s.1 e in (ground arith, rest)
