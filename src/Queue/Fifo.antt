-- ===== src/Queue/Fifo.antt =====
-- The queue of shared/queue.h from its first element on, against the order of arrivals.
use nebulea_os.Base.{
  ◌≡◌, ◌∙◌, refl, ap, true, false, Option, none, some, List, [], ◌∷◌, arith, if◌then◌else◌,
  Bool-cases, Option-cases, inl, inr,
}
use nebulea_os.Base.Int.{ℤ, ltb_ℤ}
use nebulea_os.Queue.{insert, top, without_top}
use nebulea_os.Queue.Order.{IsSorted, AtMost, insert-IsSorted, top-AtMost}

-- An element comes, or one is asked for and leaves.
pub data Move (A : Type 0) : Type 0 where
  comes : A → Move A
  leaves : Move A

module _ {A : Type 0} (prio : A → ℤ) where
  -- What `queue_top` answers at each leaving, with `queue_add` at each coming and `queue_out` behind each answer.
  abbrev pub answers : List (Move A) → List A → List (Option A)
  answers [] queue = []
  answers (comes x ∷ ms) queue = answers ms (insert prio x queue)
  answers (leaves ∷ ms) queue = top queue ∷ answers ms (without_top queue)

  -- Of the elements that are there, the last to come first, one of greatest priority, and of those
  -- the one that came first; with what stays.
  abbrev pub first_served : List A → Option (A × List A)
  first_served [] = none
  first_served (x ∷ older) = elim (first_served older) [
    | none ↦ some (x, older)
    | some (y, others) ↦ if ltb_ℤ (prio y) (prio x) then some (x, older) else some (y, x ∷ others)
  ]

  abbrev pub served : List (Move A) → List A → List (Option A)
  served [] there = []
  served (comes x ∷ ms) there = served ms (x ∷ there)
  served (leaves ∷ ms) there = elim (first_served there) [
    | none ↦ none ∷ served ms there
    | some (y, others) ↦ some y ∷ served ms others
  ]

  -- The queue of the arrivals.
  queue_of : List A → List A
  queue_of [] = []
  queue_of (x ∷ older) = insert prio x (queue_of older)

  queue_of-IsSorted : (l : List A) → IsSorted prio (queue_of l)
  unfolding queue_of
  queue_of-IsSorted [] = tt
  queue_of-IsSorted (x ∷ older) = insert-IsSorted prio x (queue_of older) (queue_of-IsSorted older)

  insert-cons :
      (x y : A) (l : List A)
      → (top (y ∷ insert prio x l) ≡ top (insert prio x l))
        × (without_top (y ∷ insert prio x l) ≡ y ∷ without_top (insert prio x l))
  unfolding insert top without_top
  insert-cons x y [] = (refl, refl)
  insert-cons x y (z ∷ zs) = elim (Bool-cases (ltb_ℤ (prio z) (prio x))) [
    | inl less ↦ rw less (refl, refl)
    | inr more ↦ rw more (refl, refl)
  ]

  -- An element of greater priority than all comes to the end.
  insert-last :
      (x : A) (p : ℤ) (l : List A)
      → AtMost prio p l
      → ltb_ℤ p (prio x) ≡ true
      → (top (insert prio x l) ≡ some x) × (without_top (insert prio x l) ≡ l)
  unfolding insert top without_top
  insert-last x p [] a h = (refl, refl)
  insert-last x p (y ∷ ys) a h =
      let (first, rest) = insert-last x p ys a.1 h in
      let (on_top, under) = insert-cons x y ys in
      let less : ltb_ℤ (prio y) (prio x) ≡ true = ground (arith, a.0, h) in
      rw less (on_top ∙ first, under ∙ ap (λ l. y ∷ l) rest)

  -- Any other leaves the last element where it is.
  insert-before :
      (x t : A) (l : List A)
      → top l ≡ some t
      → ltb_ℤ (prio t) (prio x) ≡ false
      → (top (insert prio x l) ≡ some t)
        × (without_top (insert prio x l) ≡ insert prio x (without_top l))
  unfolding insert top without_top
  insert-before x t [] e h = cc
  insert-before x t (y ∷ []) e h =
      let same : ltb_ℤ (prio y) (prio x) ≡ false = ground (arith, e, h) in rw same (e, refl)
  insert-before x t (y ∷ z ∷ zs) e h = elim (Bool-cases (ltb_ℤ (prio y) (prio x))) [
    | inl less ↦
        let (first, rest) = insert-before x t (z ∷ zs) e h in
        let (on_top, under) = insert-cons x y (z ∷ zs) in
        rw less (on_top ∙ first, under ∙ ap (λ l. y ∷ l) rest)
    | inr more ↦ rw more (e, refl)
  ]

  -- What leaves the queue of the arrivals, and what stays in it.
  queue_of-none : (l : List A) → first_served l ≡ none → l ≡ []
  queue_of-none [] e = refl
  queue_of-none (x ∷ older) e = elim (Option-cases (first_served older)) [
    | inl empty ↦ absurd (let bad = rw empty at e in cc)
    | inr ((y, others), at) ↦ absurd (elim (Bool-cases (ltb_ℤ (prio y) (prio x))) [
      | inl less ↦ let bad = rw (at, less) at e in cc
      | inr more ↦ let bad = rw (at, more) at e in cc
    ])
  ]

  queue_of-some :
      (l others : List A) (y : A)
      → first_served l ≡ some (y, others)
      → (top (queue_of l) ≡ some y) × (without_top (queue_of l) ≡ queue_of others)
  unfolding queue_of insert top without_top
  queue_of-some [] others y e = cc
  queue_of-some (x ∷ older) others y e = elim (Option-cases (first_served older)) [
    | inl empty ↦
        let nobody : older ≡ [] = queue_of-none older empty in
        let got : some (x, older) ≡ some (y, others) = rw empty at e in
        let now : x ≡ y = ap (λ o. elim o [ none ↦ x | some (a, b) ↦ a ]) got in
        let stay : older ≡ others = ap (λ o. elim o [ none ↦ older | some (a, b) ↦ b ]) got in
        rw (← now, ← stay, nobody) (refl, refl)
    | inr ((z, rest), at) ↦
        let (on_top, under) = queue_of-some older rest z at in
        elim (Bool-cases (ltb_ℤ (prio z) (prio x))) [
          | inl less ↦
              let got : some (x, older) ≡ some (y, others) = rw (at, less) at e in
              let last =
                insert-last x (prio z) (queue_of older)
                  (top-AtMost prio (queue_of older) z (queue_of-IsSorted older) on_top) less in
              let now : x ≡ y = ap (λ o. elim o [ none ↦ x | some (a, b) ↦ a ]) got in
              let stay : older ≡ others = ap (λ o. elim o [ none ↦ older | some (a, b) ↦ b ]) got in
              rw (← now, ← stay) last
          | inr more ↦
              let got : some (z, x ∷ rest) ≡ some (y, others) = rw (at, more) at e in
              let before = insert-before x z (queue_of older) on_top more in
              let now : z ≡ y = ap (λ o. elim o [ none ↦ z | some (a, b) ↦ a ]) got in
              let stay : x ∷ rest ≡ others =
                ap (λ o. elim o [ none ↦ x ∷ rest | some (a, b) ↦ b ]) got in
              rw (← now, ← stay) (before.0, before.1 ∙ ap (insert prio x) under)
        ]
  ]

  answers-queue_of :
      (ms : List (Move A)) (there : List A) → answers ms (queue_of there) ≡ served ms there
  unfolding queue_of top without_top
  answers-queue_of [] there = refl
  answers-queue_of (comes x ∷ ms) there = answers-queue_of ms (x ∷ there)
  answers-queue_of (leaves ∷ ms) there = elim (Option-cases (first_served there)) [
    | inl empty ↦
        let nobody : there ≡ [] = queue_of-none there empty in
        rw nobody (ap (λ l. none ∷ l) (answers-queue_of ms []))
    | inr ((y, others), at) ↦
        let (on_top, under) = queue_of-some there others y at in
        rw (served, at, on_top, under) (ap (λ l. some y ∷ l) (answers-queue_of ms others))
  ]

  -- From the empty queue on, whatever elements come and leave in whatever order, the queue
  -- answers each time with an element of the greatest priority of those that are there, and of
  -- those with the one that came first, or with none where nothing is there.
  pub answers-served : (ms : List (Move A)) → answers ms [] ≡ served ms []
  unfolding queue_of
  answers-served ms = answers-queue_of ms []
