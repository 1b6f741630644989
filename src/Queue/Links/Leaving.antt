-- ===== src/Queue/Links/Leaving.antt =====
-- `queue_out` of shared/queue.h on the links: the last link of the ring leaves.
use nebulea_os.Base.{
  ℕ, ◌≡◌, ◌∙◌, refl, sym, ap, true, false, some, List, [], ◌∷◌, arith, ◌==◌, inl, inr, Bool-cases,
  ==_iff,
}
use mathlib.Core.Option
use nebulea_os.Queue.{top, without_top, delete}
use nebulea_os.Queue.Links.{
  Links, is_unlinked, queue_entry, unlink, take_last, queue_empty, queue_out,
}
use nebulea_os.Queue.Links.Chain.{has, Once, Chain, IsRing, Chain-frame, last, prev-last, has-last}
use nebulea_os.Queue.Links.Removing.{unlink-IsRing, unlink-frame}

pub top-last : (x : ℕ) (xs : List ℕ) → top (x ∷ xs) ≡ some (last x xs)
unfolding top
top-last x [] = refl
top-last x (y ∷ ys) = top-last y ys

next-last : (l : Links) (a : ℕ) (xs : List ℕ) (b : ℕ) → Chain l a xs b → l.next (last a xs) ≡ b
next-last l a [] b c = c.0
next-last l a (x ∷ xs) b c = next-last l x xs b c.2

delete-last :
    (x : ℕ) (xs : List ℕ) → Once (x ∷ xs) → delete (last x xs) (x ∷ xs) ≡ without_top (x ∷ xs)
unfolding delete without_top
delete-last x [] once = ground arith
delete-last x (y ∷ ys) once =
    let away : (x == last y ys) ≡ false =
      ground (arith, has-last y ys, once.0, (==_iff x (last y ys)).0) in
    rw away (ap (λ zs. x ∷ zs) (delete-last y ys once.1))

module _ (l : Links) (head : ℕ) (forth : l.next (l.prev head) ≡ head) where
  -- `queue_out` writes what `queue_del` of the last element does.
  next-take_last : (r : ℕ) → (take_last head l).next r ≡ (unlink (l.prev head) l).next r
  next-take_last r = let self : (head == head) ≡ true = ground arith in rw (self, forth) refl

  prev-take_last : (r : ℕ) → (take_last head l).prev r ≡ (unlink (l.prev head) l).prev r
  prev-take_last r = rw forth (elim (Bool-cases (l.prev (l.prev head) == l.prev head)) [
    | inl same ↦ rw same refl
    | inr away ↦ rw away refl
  ])

  take_last-IsRing :
      (xs : List ℕ) → IsRing (unlink (l.prev head) l) head xs → IsRing (take_last head l) head xs
  take_last-IsRing xs i = record {
    chain =
        Chain-frame (unlink (l.prev head) l) (take_last head l) head xs head
          (λ r h. next-take_last r) (λ r h. prev-take_last r) i.chain;
    once = i.once;
    not_null = i.not_null;
  }

  take_last-is_unlinked : (t : ℕ) → l.prev head ≡ t → is_unlinked t (take_last head l) ≡ true
  take_last-is_unlinked t at =
      let self : (l.prev head == t) ≡ true = (==_iff (l.prev head) t).1 at in rw self refl

-- Let the links be the ring of a list. queue_out answers the element of the list's last link, or
-- null for the empty list, leaves the ring of the list without it, leaves no pointers in the link
-- that left, and changes no pointer outside the ring.
pub queue_out-IsRing :
    (diff head : ℕ) (l : Links) (xs : List ℕ)
    → IsRing l head xs
    → ((queue_out diff head l).0 ≡ Option.map (queue_entry diff) (top xs))
      × IsRing (queue_out diff head l).1 head (without_top xs)
      × ((t : ℕ) → top xs ≡ some t → is_unlinked t (queue_out diff head l).1 ≡ true)
      × ((r : ℕ)
          → has r (head ∷ xs) ≡ false
          → ((queue_out diff head l).1.next r ≡ l.next r)
            × ((queue_out diff head l).1.prev r ≡ l.prev r))
unfolding queue_out queue_empty top without_top
queue_out-IsRing diff head l [] i =
    let self : (l.next head == head) ≡ true = ground (arith, i.chain.0) in
    rw self
      (refl, i, (λ t none_left. absurd (Option.none-ne-some t none_left)), (λ r far. (refl, refl)))
queue_out-IsRing diff head l (x ∷ xs) i =
    let away : (l.next head == head) ≡ false = ground (arith, i.chain.0, i.once.0) in
    let e : ℕ = l.prev head in
    let at : e ≡ last x xs = prev-last l x xs head i.chain.2 in
    let forth : l.next e ≡ head = ap l.next at ∙ next-last l x xs head i.chain.2 in
    let inside : has e (x ∷ xs) ≡ true = ap (λ y. has y (x ∷ xs)) at ∙ has-last x xs in
    let rest : delete e (x ∷ xs) ≡ without_top (x ∷ xs) =
      ap (λ y. delete y (x ∷ xs)) at ∙ delete-last x xs i.once.1 in
    let ring : IsRing (take_last head l) head (delete e (x ∷ xs)) =
      take_last-IsRing l head forth (delete e (x ∷ xs))
        (unlink-IsRing l head (x ∷ xs) i e inside) in
    rw away (
      rw (top-last x xs, ← at) refl,
      rw (← rest) ring,
      (λ t h.
          take_last-is_unlinked l head forth t
            (at ∙ Option.some-injective (last x xs) t (sym (top-last x xs) ∙ h))),
      (λ r far.
          let same = unlink-frame l head (x ∷ xs) i e inside r far in
          (next-take_last l head forth r ∙ same.0, prev-take_last l head forth r ∙ same.1)),
    )
