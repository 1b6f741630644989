-- ===== src/Queue.antt =====
-- The priority queue of shared/queue.h as the list of its elements, from `head->next` round to
-- `head->prev`; the element that leaves first is the last one.
pub mod Order
pub mod Counts
pub mod Same
pub mod Fifo
pub mod Links
use nebulea_os.Base.{ℕ, Bool, true, false, Option, none, some, List, [], ◌∷◌, ◌==◌, if◌then◌else◌}
use nebulea_os.Base.Int.{ℤ, ltb_ℤ}

module _ {ℓ} {A : Type ℓ} where
  -- `queue_add`: behind the elements of smaller priority, before those of equal priority.
  unfoldable pub insert : (A → ℤ) → A → List A → List A
  insert prio x [] = x ∷ []
  insert prio x (y ∷ ys) = if ltb_ℤ (prio y) (prio x) then y ∷ insert prio x ys else x ∷ y ∷ ys

  -- `queue_top`: the element before the head, or null.
  unfoldable pub top : List A → Option A
  top [] = none
  top (x ∷ []) = some x
  top (x ∷ y ∷ ys) = top (y ∷ ys)

  -- What `queue_out` leaves in the list.
  unfoldable pub without_top : List A → List A
  without_top [] = []
  without_top (x ∷ []) = []
  without_top (x ∷ y ∷ ys) = x ∷ without_top (y ∷ ys)

  -- `queue_bottom`: the element after the head, or null.
  unfoldable pub bottom : List A → Option A
  bottom [] = none
  bottom (x ∷ xs) = some x

-- `queue_del` of the element at an address.
unfoldable pub delete : ℕ → List ℕ → List ℕ
delete r [] = []
delete r (x ∷ xs) = if x == r then xs else x ∷ delete r xs
