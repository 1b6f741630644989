-- ===== src/Queue/Links/Adding.antt =====
-- `queue_add` of shared/queue.h on the links, and the insertion into the list.
use nebulea_os.Base.{
  ℕ, zero, suc, ◌<◌, ◌≡◌, ◌∙◌, refl, ap, true, false, some, List, [], ◌∷◌, arith, ◌==◌, ◌||◌,
  if◌then◌else◌, inl, inr, Bool-cases, length,
}
use nebulea_os.Base.Int.{ℤ, ltb_ℤ}
use nebulea_os.Queue.{insert}
use nebulea_os.Queue.Links.{
  Links, is_unlinked, link_field, link_prio, find_place, link_before, queue_add,
}
use nebulea_os.Queue.Links.Chain.{
  has, Once, Chain, IsRing, Chain-frame, other, other', next-not_null,
}

-- The first link whose priority is not smaller, or the head.
abbrev place : (ℕ → ℤ) → ℤ → List ℕ → ℕ → ℕ
place f p [] b = b
place f p (x ∷ xs) b = if ltb_ℤ (f x) p then place f p xs b else x

find_place-place :
    (diff : ℕ) (prio : ℕ → ℤ) (l : Links) (head : ℕ) (p : ℤ) (n a : ℕ) (xs : List ℕ)
    → Chain l a xs head
    → has head xs ≡ false
    → length xs < n
    → find_place diff prio head p n a l ≡ some (place (link_prio diff prio) p xs head)
unfolding find_place
find_place-place diff prio l head p zero a xs c out h = absurd (omega arith)
find_place-place diff prio l head p (suc n) a [] c out h =
    let self : (head == head) ≡ true = ground arith in rw (find_place, c.0, self) refl
find_place-place diff prio l head p (suc n) a (x ∷ xs) c out h =
    let rest = find_place-place diff prio l head p n x xs c.2 (ground arith) (omega arith) in
    let away : (x == head) ≡ false = ground arith in
    rw (find_place, c.0, away, rest)
      (elim (Bool-cases (ltb_ℤ (link_prio diff prio x) p)) [
        | inl less ↦ rw less refl
        | inr not_less ↦ rw not_less refl
      ])

-- The place is a link of the list or the head.
has-place : (f : ℕ → ℤ) (p : ℤ) (xs : List ℕ) (b : ℕ) → has (place f p xs b) (b ∷ xs) ≡ true
has-place f p [] b = ground arith
has-place f p (x ∷ xs) b = ground (arith, has-place f p xs b)

-- The link before the place is one of the list, or the one that the list starts behind.
has-before :
    (l : Links) (f : ℕ → ℤ) (p : ℤ) (a : ℕ) (xs : List ℕ) (b : ℕ)
    → Chain l a xs b
    → has (l.prev (place f p xs b)) (a ∷ xs) ≡ true
has-before l f p a [] b c = ground (arith, c.1)
has-before l f p a (x ∷ xs) b c = ground (arith, has-before l f p x xs b c.2, c.1)

module _ (f : ℕ → ℤ) (e : ℕ) (l : Links) where
  -- The pointers after the four writes.
  next-link_before :
      (c r : ℕ)
      → (e == c) ≡ false
      → (link_before e c l).next r ≡ (if l.prev c == r then e else if e == r then c else l.next r)
  next-link_before c r away = rw away refl

  prev-link_before :
      (c r : ℕ)
      → (e == c) ≡ false
      → (link_before e c l).prev r ≡ (if c == r then e else if e == r then l.prev c else l.prev r)
  prev-link_before c r away = let self : (e == e) ≡ true = ground arith in ground arith

  -- The rest of the chain, behind the place.
  behind :
      (a x : ℕ) (xs : List ℕ) (b : ℕ)
      → l.prev x ≡ a
      → Chain l x xs b
      → has a (x ∷ xs) ≡ false
      → has x (b ∷ xs) ≡ false
      → has e (a ∷ b ∷ x ∷ xs) ≡ false
      → Chain (link_before e x l) x xs b
  behind a x xs b back c ha hx he =
      let away : (e == x) ≡ false = ground arith in
      Chain-frame l (link_before e x l) x xs b
        (λ r h.
          let n1 : (a == r) ≡ false = other r a (x ∷ xs) h ha in
          let n2 : (e == r) ≡ false = other r e (x ∷ xs) h (ground arith) in
          next-link_before x r away ∙ rw (back, n1, n2) refl)
        (λ r h.
          let n1 : (x == r) ≡ false = other r x (b ∷ xs) h hx in
          let n2 : (e == r) ≡ false = other r e (b ∷ xs) h (ground arith) in
          prev-link_before x r away ∙ rw (n1, n2) refl)
        c

  link_before-Chain :
      (a : ℕ) (xs : List ℕ) (b : ℕ)
      → Chain l a xs b
      → has a xs ≡ false
      → has b xs ≡ false
      → Once xs
      → has e (a ∷ b ∷ xs) ≡ false
      → Chain (link_before e (place f (f e) xs b) l) a (insert f e xs) b
  unfolding insert
  link_before-Chain a [] b c ha hb once he = ground (arith, c.0, c.1)
  link_before-Chain a (x ∷ xs) b c ha hb once he =
      let away : (e == x) ≡ false = ground arith in
      let e_not_a : (e == a) ≡ false = ground arith in
      elim (Bool-cases (ltb_ℤ (f x) (f e))) [
        | inl less ↦
            let p : ℕ = place f (f e) xs b in
            let away' : (e == p) ≡ false =
              other p e (b ∷ xs) (has-place f (f e) xs b) (ground arith) in
            let before : (a == l.prev p) ≡ false =
              other (l.prev p) a (x ∷ xs) (has-before l f (f e) x xs b c.2) ha in
            let before' : (l.prev p == a) ≡ false = ground (arith, before) in
            let not_x : (x == p) ≡ false =
              other p x (b ∷ xs) (has-place f (f e) xs b) (ground (arith, once.0)) in
            let not_x' : (p == x) ≡ false = ground (arith, not_x) in
            let goal : Chain (link_before e p l) a (x ∷ insert f e xs) b = (
              next-link_before p a away' ∙ rw (before', e_not_a) (c.0),
              prev-link_before p x away' ∙ rw (not_x', away) (c.1),
              link_before-Chain x xs b c.2 once.0 (ground arith) once.1 (ground arith),
            ) in
            rw (less, insert) goal
        | inr not_less ↦
            let self : (a == a) ≡ true = ground arith in
            let self_x : (x == x) ≡ true = ground arith in
            let self_e : (e == e) ≡ true = ground arith in
            let a_not_e : (a == e) ≡ false = ground arith in
            let x_not_e : (x == e) ≡ false = ground arith in
            let goal : Chain (link_before e x l) a (e ∷ x ∷ xs) b = (
              next-link_before x a away ∙ rw (c.1, self) refl,
              prev-link_before x e away ∙ rw (x_not_e, self_e) (c.1),
              (
                next-link_before x e away ∙ rw (c.1, a_not_e, self_e) refl,
                prev-link_before x x away ∙ rw self_x refl,
                behind a x xs b c.1 c.2 ha (ground (arith, once.0)) he,
              ),
            ) in
            rw (not_less, insert) goal
      ]

has-insert : (f : ℕ → ℤ) (e r : ℕ) (xs : List ℕ) → has r (insert f e xs) ≡ ((e == r) || has r xs)
unfolding insert
has-insert f e r [] = refl
has-insert f e r (x ∷ xs) = ground (arith, has-insert f e r xs)

Once-insert : (f : ℕ → ℤ) (e : ℕ) (xs : List ℕ) → has e xs ≡ false → Once xs → Once (insert f e xs)
unfolding insert
Once-insert f e [] out once = (refl, tt)
Once-insert f e (x ∷ xs) out once = ground (arith, Once-insert f e xs, has-insert f e x xs)

-- A link without pointers is not in a ring.
outside :
    (l : Links) (head : ℕ) (xs : List ℕ) (e : ℕ)
    → IsRing l head xs
    → is_unlinked e l ≡ true
    → has e (head ∷ xs) ≡ false
outside l head xs e i u = elim (Bool-cases (has e (head ∷ xs))) [
  | inl inside ↦ let no = next-not_null l head xs e i inside in ground arith
  | inr out ↦ out
]

-- Let the links be the ring of a list, and let the link of an element stand at an address other
-- than null and be without pointers. Then, given more rounds than the list has links, queue_add
-- ends without a failed assertion, the links are the ring of the list with the new link put in by
-- its priority, and no pointer outside the ring and the new link changes.
pub queue_add-IsRing :
    (diff : ℕ) (prio : ℕ → ℤ) (elem head rounds : ℕ) (l : Links) (xs : List ℕ)
    → IsRing l head xs
    → is_unlinked (link_field diff elem) l ≡ true
    → (link_field diff elem == 0) ≡ false
    → length xs < rounds
    → (l' : Links) × (queue_add diff prio elem head rounds l ≡ some l')
      × IsRing l' head (insert (link_prio diff prio) (link_field diff elem) xs)
      × ((r : ℕ)
          → has r (link_field diff elem ∷ head ∷ xs) ≡ false
          → (l'.next r ≡ l.next r) × (l'.prev r ≡ l.prev r))
unfolding queue_add
queue_add-IsRing diff prio elem head rounds l xs i u nonnull h =
    let e : ℕ = link_field diff elem in
    let f : ℕ → ℤ = link_prio diff prio in
    let out : has e (head ∷ xs) ≡ false = outside l head xs e i u in
    let same : prio elem ≡ f e = ap prio (omega arith) in
    let at : ℕ = place f (f e) xs head in
    let found : find_place diff prio head (prio elem) rounds head l ≡ some at =
      rw same (find_place-place diff prio l head (f e) rounds head xs i.chain i.once.0 h) in
    let ring : Chain (link_before e at l) head (insert f e xs) head =
      link_before-Chain f e l head xs head i.chain i.once.0 i.once.0 i.once.1 (ground arith) in
    let null = i.not_null in
    let away : (e == at) ≡ false = other at e (head ∷ xs) (has-place f (f e) xs head) out in
    (
      link_before e at l,
      rw (u, found) refl,
      record {
        chain = ring;
        once = (has-insert f e head xs ∙ ground arith, Once-insert f e xs (ground arith) i.once.1);
        not_null = ground (arith, has-insert f e 0 xs);
      },
      (λ r far.
          let far_at : (at == r) ≡ false =
            other' at r (head ∷ xs) (has-place f (f e) xs head) (ground arith) in
          let far_before : (l.prev at == r) ≡ false =
            other' (l.prev at) r (head ∷ xs) (has-before l f (f e) head xs head i.chain)
              (ground arith) in
          let far_e : (e == r) ≡ false = ground arith in
          (
            next-link_before f e l at r away ∙ rw (far_before, far_e) refl,
            prev-link_before f e l at r away ∙ rw (far_at, far_e) refl,
          )),
    )
