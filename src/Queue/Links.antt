-- ===== src/Queue/Links.antt =====
-- The macros and functions of shared/queue.h on the links themselves: `prev` and `next` under the address of a
-- link, a field `diff` bytes behind the start of its element. Null is 0. An answer `none` is a failed assertion, or a
-- loop that has not ended in the rounds given.
pub mod Chain
pub mod Adding
pub mod Removing
pub mod Leaving
pub mod Walking
use nebulea_os.Base.{
  ℕ, zero, suc, ◌+◌, ◌-◌, Bool, true, false, not, Option, none, some, List, [], ◌∷◌, ◌==◌, ◌&&◌,
  if◌then◌else◌, update,
}
use nebulea_os.Base.Int.{ℤ, ltb_ℤ}

pub record Links : Type 0 where
  pub prev : ℕ → ℕ
  pub next : ℕ → ℕ

abbrev pub set_next : ℕ → ℕ → Links → Links
set_next p q l = record l { next = update l.next p q }

abbrev pub set_prev : ℕ → ℕ → Links → Links
set_prev p q l = record l { prev = update l.prev p q }

-- `INIT_LIST_HEAD`
unfoldable pub init_list_head : ℕ → Links → Links
init_list_head head l = set_prev head head (set_next head head l)

-- `INIT_LINK`
unfoldable pub init_link : ℕ → Links → Links
init_link p l = set_prev p 0 (set_next p 0 l)

unfoldable pub queue_empty : ℕ → Links → Bool
queue_empty head l = l.next head == head

-- `queue_initialized`
abbrev pub is_unlinked : ℕ → Links → Bool
is_unlinked p l = (l.next p == 0) && (l.prev p == 0)

-- The four writes of `queue_add`, before the link `cur`
abbrev pub link_before : (elem_link cur : ℕ) → Links → Links
link_before e cur l =
    let l1 : Links = set_next e cur l in
    let l2 : Links = set_prev e (l1.prev cur) l1 in
    let l3 : Links = set_next (l2.prev cur) e l2 in set_prev cur e l3

-- The four writes of `queue_del`
abbrev pub unlink : ℕ → Links → Links
unlink e l =
    let l1 : Links = set_next (l.prev e) (l.next e) l in
    let l2 : Links = set_prev (l1.next e) (l1.prev e) l1 in set_prev e 0 (set_next e 0 l2)

-- The writes of `__queue_out`
abbrev pub take_last : ℕ → Links → Links
take_last head l =
    let ret : ℕ = l.prev head in
    let l1 : Links = set_prev head (l.prev (l.prev head)) l in
    let l2 : Links = set_next (l1.prev head) head l1 in set_next ret 0 (set_prev ret 0 l2)

module _ (diff : ℕ) where
  abbrev pub queue_entry : ℕ → ℕ
  queue_entry ptr_link = ptr_link - diff

  -- `&(element->listfield)`
  abbrev pub link_field : ℕ → ℕ
  link_field elem = elem + diff

  -- The priority of the element around a link.
  abbrev pub link_prio : (ℕ → ℤ) → ℕ → ℤ
  link_prio prio p = prio (queue_entry p)

  -- The inner loop of `queue_add`, from a link on, with the rounds left: where the element goes
  unfoldable pub find_place : (ℕ → ℤ) → (head : ℕ) → ℤ → (rounds cur : ℕ) → Links → Option ℕ
  find_place prio head p zero cur l = none
  find_place prio head p (suc n) cur l =
      let next : ℕ = l.next cur in
      let rest : Option ℕ = find_place prio head p n next l in
      if not (next == head) && ltb_ℤ (link_prio prio next) p then rest else some next

  unfoldable pub queue_add : (ℕ → ℤ) → (elem head rounds : ℕ) → Links → Option Links
  queue_add prio elem head rounds l =
      if is_unlinked (link_field elem) l
      then (elim (find_place prio head (prio elem) rounds head l) [
        | none ↦ none
        | some cur ↦ some (link_before (link_field elem) cur l)
      ])
      else none

  unfoldable pub queue_del : ℕ → Links → Option Links
  queue_del elem l =
      let e : ℕ = link_field elem in
      if not (l.prev e == 0) && not (l.next e == 0) then some (unlink e l) else none

  -- `queue_out`, with the element or null
  unfoldable pub queue_out : ℕ → Links → Option ℕ × Links
  queue_out head l =
      if queue_empty head l then (none, l) else (some (queue_entry (l.prev head)), take_last head l)

  unfoldable pub queue_top : ℕ → Links → Option ℕ
  queue_top head l = if queue_empty head l then none else some (queue_entry (l.prev head))

  unfoldable pub queue_bottom : ℕ → Links → Option ℕ
  queue_bottom head l = if queue_empty head l then none else some (queue_entry (l.next head))

  -- The elements that `queue_for_each` visits from a link on, with the rounds left
  unfoldable pub for_each : (head rounds cur : ℕ) → Links → Option (List ℕ)
  for_each head zero cur l = none
  for_each head (suc n) cur l = elim (cur == head) [
    | true ↦ some []
    | false ↦ elim (for_each head n (l.next cur) l) [
      | none ↦ none
      | some elems ↦ some (queue_entry cur ∷ elems)
    ]
  ]

  unfoldable pub queue_for_each : (head rounds : ℕ) → Links → Option (List ℕ)
  queue_for_each head rounds l = for_each head rounds (l.next head) l

  -- The same for `queue_for_each_prev`
  unfoldable pub for_each_prev : (head rounds cur : ℕ) → Links → Option (List ℕ)
  for_each_prev head zero cur l = none
  for_each_prev head (suc n) cur l = elim (cur == head) [
    | true ↦ some []
    | false ↦ elim (for_each_prev head n (l.prev cur) l) [
      | none ↦ none
      | some elems ↦ some (queue_entry cur ∷ elems)
    ]
  ]

  unfoldable pub queue_for_each_prev : (head rounds : ℕ) → Links → Option (List ℕ)
  queue_for_each_prev head rounds l = for_each_prev head rounds (l.prev head) l
