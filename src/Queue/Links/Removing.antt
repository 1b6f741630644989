-- ===== src/Queue/Links/Removing.antt =====
-- `queue_del` and `queue_out` of shared/queue.h on the links, and the removal from the list.
use nebulea_os.Base.{
  ℕ, ◌≡◌, ◌∙◌, refl, true, false, some, List, [], ◌∷◌, arith, ◌==◌, if◌then◌else◌, inl, inr,
  Bool-cases, ==_iff,
}
use nebulea_os.Queue.{delete}
use nebulea_os.Queue.Links.{Links, is_unlinked, link_field, unlink, queue_del}
use nebulea_os.Queue.Links.Chain.{
  has, Once, Chain, IsRing, Chain-frame, other, other', has-next, has-prev, next-not_null,
  prev-not_null,
}

has-delete : (e r : ℕ) (xs : List ℕ) → has r xs ≡ false → has r (delete e xs) ≡ false
unfolding delete
has-delete e r [] h = refl
has-delete e r (x ∷ xs) h = ground (arith, has-delete e r xs)

Once-delete : (e : ℕ) (xs : List ℕ) → Once xs → Once (delete e xs)
unfolding delete
Once-delete e [] once = tt
Once-delete e (x ∷ xs) once = ground (arith, Once-delete e xs, has-delete e x xs)

module _ (e : ℕ) (l : Links) where
  -- The pointers after the four writes.
  next-unlink :
      (r : ℕ)
      → (l.prev e == e) ≡ false
      → (unlink e l).next r ≡ (if e == r then 0 else if l.prev e == r then l.next e else l.next r)
  next-unlink r away = refl

  prev-unlink :
      (r : ℕ)
      → (l.prev e == e) ≡ false
      → (unlink e l).prev r ≡ (if e == r then 0 else if l.next e == r then l.prev e else l.prev r)
  prev-unlink r away = rw away refl

  -- The chain without its first link.
  unlink-first :
      (a : ℕ) (xs : List ℕ) (b : ℕ)
      → Chain l a (e ∷ xs) b
      → has a (e ∷ xs) ≡ false
      → has b (e ∷ xs) ≡ false
      → Once (e ∷ xs)
      → Chain (unlink e l) a xs b
  unlink-first a [] b c ha hb once =
      let apart : (l.prev e == e) ≡ false = ground (arith, c.1) in
      let away_a : (e == a) ≡ false = ground arith in
      let away_b : (e == b) ≡ false = ground arith in
      let self_a : (a == a) ≡ true = ground arith in
      let self_b : (b == b) ≡ true = ground arith in
      (
        next-unlink a apart ∙ rw (away_a, c.1, self_a) (c.2.0),
        prev-unlink b apart ∙ rw (away_b, c.2.0, self_b) (c.1),
      )
  unlink-first a (x ∷ xs) b c ha hb once =
      let apart : (l.prev e == e) ≡ false = ground (arith, c.1) in
      let away_a : (e == a) ≡ false = ground arith in
      let away_x : (e == x) ≡ false = ground (arith, once.0) in
      let self_a : (a == a) ≡ true = ground arith in
      let self_x : (x == x) ≡ true = ground arith in
      (
        next-unlink a apart ∙ rw (away_a, c.1, self_a) (c.2.0),
        prev-unlink x apart ∙ rw (away_x, c.2.0, self_x) (c.1),
        Chain-frame l (unlink e l) x xs b
            (λ r h.
              let n1 : (e == r) ≡ false = other r e (x ∷ xs) h once.0 in
              let n2 : (a == r) ≡ false = other r a (x ∷ xs) h (ground arith) in
              next-unlink r apart ∙ rw (n1, c.1, n2) refl)
            (λ r h.
              let n1 : (e == r) ≡ false = other r e (b ∷ xs) h (ground (arith, once.0)) in
              let n2 : (x == r) ≡ false = other r x (b ∷ xs) h (ground (arith, once.1.0)) in
              prev-unlink r apart ∙ rw (n1, c.2.0, n2) refl)
            c.2.2,
      )

  unlink-Chain :
      (a : ℕ) (xs : List ℕ) (b : ℕ)
      → Chain l a xs b
      → has a xs ≡ false
      → has b xs ≡ false
      → Once xs
      → has e xs ≡ true
      → (l.prev e == e) ≡ false
      → Chain (unlink e l) a (delete e xs) b
  unfolding delete
  unlink-Chain a [] b c ha hb once he apart = ground arith
  unlink-Chain a (x ∷ xs) b c ha hb once he apart = elim (Bool-cases (x == e)) [
    | inl same ↦
        let at : x ≡ e = (==_iff x e).0 same in
        let goal : Chain (unlink e l) a xs b =
          unlink-first a xs b (rw (← at) c) (rw (← at) ha) (rw (← at) hb) (rw (← at) once) in
        rw (same, delete) goal
    | inr away ↦
        let inside : has e xs ≡ true = ground (arith, he) in
        let before : has (l.prev e) (x ∷ xs) ≡ true = has-prev l x xs b e c.2 (ground arith) in
        let behind : has (l.next e) (b ∷ xs) ≡ true = has-next l x xs b e c.2 (ground arith) in
        let away_a : (e == a) ≡ false = ground (arith, other e a xs inside) in
        let away_x : (e == x) ≡ false = ground (arith, away) in
        let n1 : (l.prev e == a) ≡ false = other' (l.prev e) a (x ∷ xs) before ha in
        let n2 : (l.next e == x) ≡ false =
          other' (l.next e) x (b ∷ xs) behind (ground (arith, once.0)) in
        let goal : Chain (unlink e l) a (x ∷ delete e xs) b = (
          next-unlink a apart ∙ rw (away_a, n1) (c.0),
          prev-unlink x apart ∙ rw (away_x, n2) (c.1),
          unlink-Chain x xs b c.2 once.0 (ground arith) once.1 inside apart,
        ) in
        rw (away, delete) goal
  ]

-- No link of a chain is its own predecessor.
prev-apart :
    (l : Links) (a : ℕ) (xs : List ℕ) (b e : ℕ)
    → Chain l a xs b
    → Once (a ∷ xs)
    → has e xs ≡ true
    → (l.prev e == e) ≡ false
prev-apart l a [] b e c once h = ground arith
prev-apart l a (x ∷ xs) b e c once h = elim (Bool-cases (x == e)) [
  | inl same ↦
      let at : x ≡ e = (==_iff x e).0 same in
      let back : l.prev x ≡ a = c.1 in rw (← at, back) (ground (arith, once.0))
  | inr away ↦ prev-apart l x xs b e c.2 once.1 (ground arith)
]

module _ (l : Links) (head : ℕ) (xs : List ℕ) (i : IsRing l head xs) (e : ℕ)
    (h : has e xs ≡ true) where
  pub apart : (l.prev e == e) ≡ false
  apart = prev-apart l head xs head e i.chain i.once h

  pub unlink-IsRing : IsRing (unlink e l) head (delete e xs)
  unlink-IsRing = record {
    chain = unlink-Chain e l head xs head i.chain i.once.0 i.once.0 i.once.1 h apart;
    once = (has-delete e head xs i.once.0, Once-delete e xs i.once.1);
    not_null = let null = i.not_null in ground (arith, has-delete e 0 xs);
  }

  pub unlink-is_unlinked : is_unlinked e (unlink e l) ≡ true
  unlink-is_unlinked = let self : (e == e) ≡ true = ground arith in ground arith

  pub unlink-frame :
      (r : ℕ)
      → has r (head ∷ xs) ≡ false
      → ((unlink e l).next r ≡ l.next r) × ((unlink e l).prev r ≡ l.prev r)
  unlink-frame r far =
      let n : (e == r) ≡ false = other' e r xs h (ground arith) in
      let n1 : (l.prev e == r) ≡ false =
        other' (l.prev e) r (head ∷ xs) (has-prev l head xs head e i.chain (ground arith)) far in
      let n2 : (l.next e == r) ≡ false =
        other' (l.next e) r (head ∷ xs) (has-next l head xs head e i.chain (ground arith)) far in
      (next-unlink e l r apart ∙ rw (n, n1) refl, prev-unlink e l r apart ∙ rw (n, n2) refl)

-- Let the links be the ring of a list in which the link of the element stands. Then queue_del
-- does not fail its assertion, the links are the ring of the list without that link, which has no
-- pointers left, and no pointer outside the ring changes.
pub queue_del-IsRing :
    (diff elem head : ℕ) (l : Links) (xs : List ℕ)
    → IsRing l head xs
    → has (link_field diff elem) xs ≡ true
    → (l' : Links) × (queue_del diff elem l ≡ some l')
      × IsRing l' head (delete (link_field diff elem) xs)
      × (is_unlinked (link_field diff elem) l' ≡ true)
      × ((r : ℕ) → has r (head ∷ xs) ≡ false → (l'.next r ≡ l.next r) × (l'.prev r ≡ l.prev r))
unfolding queue_del
queue_del-IsRing diff elem head l xs i h =
    let e : ℕ = link_field diff elem in
    let in_ring : has e (head ∷ xs) ≡ true = ground arith in
    let n : (l.next e == 0) ≡ false = next-not_null l head xs e i in_ring in
    let p : (l.prev e == 0) ≡ false = prev-not_null l head xs e i in_ring in
    (
      unlink e l,
      rw (p, n) refl,
      unlink-IsRing l head xs i e h,
      unlink-is_unlinked l head xs i e h,
      unlink-frame l head xs i e h,
    )
