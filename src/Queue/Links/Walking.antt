-- ===== src/Queue/Links/Walking.antt =====
-- `queue_for_each`, `queue_for_each_prev`, `queue_top` and `queue_bottom` of shared/queue.h on the links of a list.
use nebulea_os.Base.{
  ℕ, zero, suc, ◌+◌, ◌-◌, ◌<◌, ◌≡◌, refl, true, false, some, List, [], ◌∷◌, map, arith, ◌==◌,
  length,
}
use mathlib.Core.Option
use mathlib.Core.List.{reverse, reverse_aux}
use nebulea_os.Queue.{top, bottom}
use nebulea_os.Queue.Links.{
  Links, queue_entry, queue_empty, queue_top, queue_bottom, for_each, queue_for_each, for_each_prev,
  queue_for_each_prev,
}
use nebulea_os.Queue.Links.Chain.{has, Chain, IsRing, last, prev-last}
use nebulea_os.Queue.Links.Leaving.{top-last}

for_each-Chain :
    (diff head n a : ℕ) (xs : List ℕ) (l : Links)
    → Chain l a xs head
    → has head xs ≡ false
    → length xs < n
    → for_each diff head n (l.next a) l ≡ some (map (queue_entry diff) xs)
unfolding for_each
for_each-Chain diff head zero a xs l c out h = absurd (omega arith)
for_each-Chain diff head (suc n) a [] l c out h =
    let self : (head == head) ≡ true = ground arith in rw (c.0, for_each, self) refl
for_each-Chain diff head (suc n) a (x ∷ xs) l c out h =
    let away : (x == head) ≡ false = ground arith in
    let rest = for_each-Chain diff head n x xs l c.2 (ground arith) (omega arith) in
    let goal : for_each diff head (suc n) x l ≡ some (map (queue_entry diff) (x ∷ xs)) =
      rw (for_each, away, rest) refl in
    rw c.0 goal

-- The walk back over a chain, and on from the link before it.
for_each_prev-Chain :
    (diff head n a : ℕ) (xs : List ℕ) (b : ℕ) (l : Links) (before : List ℕ)
    → Chain l a xs b
    → has head xs ≡ false
    → for_each_prev diff head n a l ≡ some before
    → for_each_prev diff head (length xs + n) (last a xs) l
      ≡ some (reverse_aux (map (queue_entry diff) xs) before)
unfolding for_each_prev
for_each_prev-Chain diff head n a [] b l before c out e =
    let same : 0 + n ≡ n = omega arith in rw same e
for_each_prev-Chain diff head n a (x ∷ xs) b l before c out e =
    let away : (x == head) ≡ false = ground arith in
    let here : for_each_prev diff head (suc n) x l ≡ some (queue_entry diff x ∷ before) =
      rw (for_each_prev, away, c.1, e) refl in
    let later : length (x ∷ xs) + n ≡ length xs + suc n = omega arith in
    rw later (
      for_each_prev-Chain diff head (suc n) x xs b l (queue_entry diff x ∷ before) c.2
        (ground arith) here)

walk_back :
    (diff head m rounds : ℕ) (l : Links) (xs : List ℕ)
    → IsRing l head xs
    → rounds ≡ length xs + suc m
    → for_each_prev diff head rounds (l.prev head) l ≡ some (reverse (map (queue_entry diff) xs))
unfolding for_each_prev
walk_back diff head m rounds l xs i h =
    let self : (head == head) ≡ true = ground arith in
    let here : for_each_prev diff head (suc m) head l ≡ some [] = rw (for_each_prev, self) refl in
    rw (h, prev-last l head xs head i.chain)
      (for_each_prev-Chain diff head (suc m) head xs head l [] i.chain i.once.0 here)

queue_top-IsRing :
    (diff head : ℕ) (l : Links) (xs : List ℕ)
    → IsRing l head xs
    → queue_top diff head l ≡ Option.map (queue_entry diff) (top xs)
unfolding queue_top queue_empty top
queue_top-IsRing diff head l [] i =
    let self : (l.next head == head) ≡ true = ground (arith, i.chain.0) in rw self refl
queue_top-IsRing diff head l (x ∷ xs) i =
    let away : (l.next head == head) ≡ false = ground (arith, i.chain.0, i.once.0) in
    rw (away, top-last x xs, prev-last l head (x ∷ xs) head i.chain) refl

queue_bottom-IsRing :
    (diff head : ℕ) (l : Links) (xs : List ℕ)
    → IsRing l head xs
    → queue_bottom diff head l ≡ Option.map (queue_entry diff) (bottom xs)
unfolding queue_bottom queue_empty bottom
queue_bottom-IsRing diff head l [] i =
    let self : (l.next head == head) ≡ true = ground (arith, i.chain.0) in rw self refl
queue_bottom-IsRing diff head l (x ∷ xs) i =
    let away : (l.next head == head) ≡ false = ground (arith, i.chain.0, i.once.0) in
    rw (away, i.chain.0) refl

-- Let the links be the ring of a list. Given more rounds than the list has links, queue_for_each
-- visits the elements of the list in their order and ends, queue_for_each_prev visits them in the
-- reverse order and ends, and queue_top and queue_bottom answer the element of the last link and
-- of the first one, or null for the empty list.
pub IsRing-elements :
    (diff head rounds : ℕ) (l : Links) (xs : List ℕ)
    → IsRing l head xs
    → length xs < rounds
    → (queue_for_each diff head rounds l ≡ some (map (queue_entry diff) xs))
      × (queue_for_each_prev diff head rounds l ≡ some (reverse (map (queue_entry diff) xs)))
      × (queue_top diff head l ≡ Option.map (queue_entry diff) (top xs))
      × (queue_bottom diff head l ≡ Option.map (queue_entry diff) (bottom xs))
unfolding queue_for_each queue_for_each_prev
IsRing-elements diff head rounds l xs i h = (
  for_each-Chain diff head rounds head xs l i.chain i.once.0 h,
  walk_back diff head (rounds - suc (length xs)) rounds l xs i (omega arith),
  queue_top-IsRing diff head l xs i,
  queue_bottom-IsRing diff head l xs i,
)
