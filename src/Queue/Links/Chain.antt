-- ===== src/Queue/Links/Chain.antt =====
-- When the links of shared/queue.h are the ring of a list.
use nebulea_os.Base.{
  ℕ, ◌≡◌, ◌∙◌, Bool, true, false, List, [], ◌∷◌, arith, ◌==◌, ◌||◌, inl, inr, Bool-cases,
}
use nebulea_os.Queue.Links.{Links}

abbrev pub has : ℕ → List ℕ → Bool
has a [] = false
has a (x ∷ xs) = (x == a) || has a xs

-- Every link stands once.
abbrev pub Once : List ℕ → Type 0
Once [] = Unit {0}
Once (x ∷ xs) = (has x xs ≡ false) × Once xs

-- From the link `a` forwards, and back from `b`, lie the links of the list.
abbrev pub Chain : Links → (a : ℕ) → List ℕ → (b : ℕ) → Type 0
Chain l a [] b = (l.next a ≡ b) × (l.prev b ≡ a)
Chain l a (x ∷ xs) b = (l.next a ≡ x) × (l.prev x ≡ a) × Chain l x xs b

-- The links of the list, from `head->next` to `head->prev`; none of them is null or stands twice.
pub record IsRing (l : Links) (head : ℕ) (xs : List ℕ) : Type 0 where
  pub chain : Chain l head xs head
  pub once : Once (head ∷ xs)
  pub not_null : has 0 (head ∷ xs) ≡ false

-- A chain survives what changes no pointer of it.
pub Chain-frame :
    (l l' : Links) (a : ℕ) (xs : List ℕ) (b : ℕ)
    → ((r : ℕ) → has r (a ∷ xs) ≡ true → l'.next r ≡ l.next r)
    → ((r : ℕ) → has r (b ∷ xs) ≡ true → l'.prev r ≡ l.prev r)
    → Chain l a xs b
    → Chain l' a xs b
Chain-frame l l' a [] b n p (e, f) = (n a (ground arith) ∙ e, p b (ground arith) ∙ f)
Chain-frame l l' a (x ∷ xs) b n p (e, f, c) = (
  n a (ground arith) ∙ e,
  p x (ground arith) ∙ f,
  Chain-frame l l' x xs b (λ r h. n r (ground arith)) (λ r h. p r (ground arith)) c,
)

-- The first link of a list, or the one behind it.
abbrev pub first : List ℕ → ℕ → ℕ
first [] b = b
first (x ∷ xs) b = x

abbrev pub last : ℕ → List ℕ → ℕ
last a [] = a
last a (x ∷ xs) = last x xs

pub next-first : (l : Links) (a : ℕ) (xs : List ℕ) (b : ℕ) → Chain l a xs b → l.next a ≡ first xs b
next-first l a [] b c = c.0
next-first l a (x ∷ xs) b c = c.0

pub prev-last : (l : Links) (a : ℕ) (xs : List ℕ) (b : ℕ) → Chain l a xs b → l.prev b ≡ last a xs
prev-last l a [] b c = c.1
prev-last l a (x ∷ xs) b c = prev-last l x xs b c.2

pub prev-first :
    (l : Links) (a : ℕ) (xs : List ℕ) (b : ℕ) → Chain l a xs b → l.prev (first xs b) ≡ a
prev-first l a [] b c = c.1
prev-first l a (x ∷ xs) b c = c.1

pub has-last : (a : ℕ) (xs : List ℕ) → has (last a xs) (a ∷ xs) ≡ true
has-last a [] = ground arith
has-last a (x ∷ xs) = ground (arith, has-last x xs)

pub has-first : (xs : List ℕ) (b : ℕ) → has (first xs b) (b ∷ xs) ≡ true
has-first [] b = ground arith
has-first (x ∷ xs) b = ground arith

-- What a link that stands in a list is not.
pub other : (r x : ℕ) (xs : List ℕ) → has r xs ≡ true → has x xs ≡ false → (x == r) ≡ false
other r x [] h e = cc
other r x (y ∷ ys) h e = ground (arith, other r x ys)

pub other' : (r x : ℕ) (xs : List ℕ) → has r xs ≡ true → has x xs ≡ false → (r == x) ≡ false
other' r x xs h e = ground (arith, other r x xs h e)

-- From a link of the chain, `next` leads to one of its links or to its end.
pub has-next :
    (l : Links) (a : ℕ) (xs : List ℕ) (b r : ℕ)
    → Chain l a xs b
    → has r (a ∷ xs) ≡ true
    → has (l.next r) (b ∷ xs) ≡ true
has-next l a [] b r c h = ground (arith, c.0)
has-next l a (x ∷ xs) b r c h = elim (Bool-cases (a == r)) [
  | inl same ↦ ground (arith, c.0)
  | inr away ↦ ground (arith, has-next l x xs b r c.2)
]

pub has-prev :
    (l : Links) (a : ℕ) (xs : List ℕ) (b r : ℕ)
    → Chain l a xs b
    → has r (b ∷ xs) ≡ true
    → has (l.prev r) (a ∷ xs) ≡ true
has-prev l a [] b r c h = ground (arith, c.1)
has-prev l a (x ∷ xs) b r c h = elim (Bool-cases (x == r)) [
  | inl same ↦ ground (arith, c.1)
  | inr away ↦ ground (arith, has-prev l x xs b r c.2)
]

-- The pointers of a link of a ring are not null.
pub next-not_null :
    (l : Links) (head : ℕ) (xs : List ℕ) (r : ℕ)
    → IsRing l head xs
    → has r (head ∷ xs) ≡ true
    → (l.next r == 0) ≡ false
next-not_null l head xs r i h =
    other' (l.next r) 0 (head ∷ xs) (has-next l head xs head r i.chain h) i.not_null

pub prev-not_null :
    (l : Links) (head : ℕ) (xs : List ℕ) (r : ℕ)
    → IsRing l head xs
    → has r (head ∷ xs) ≡ true
    → (l.prev r == 0) ≡ false
prev-not_null l head xs r i h =
    other' (l.prev r) 0 (head ∷ xs) (has-prev l head xs head r i.chain h) i.not_null
