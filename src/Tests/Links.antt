-- ===== src/Tests/Links.antt =====
-- A queue of two elements as links, and the macros of shared/queue.h on it.
use nebulea_os.Base.{
  ℕ, ◌≡◌, refl, true, false, some, List, [], ◌∷◌, map, arith, ◌==◌, if◌then◌else◌,
}
use nebulea_os.Base.Int.{ℤ, pos}
use mathlib.Core.Option
use mathlib.Core.List.{reverse}
use nebulea_os.Queue.{insert, top, bottom, without_top, delete}
use nebulea_os.Queue.Links.{
  Links, set_next, set_prev, is_unlinked, link_field, link_prio, queue_entry, queue_empty,
  queue_add, queue_del, queue_out, queue_top, queue_bottom, queue_for_each, queue_for_each_prev,
}
use nebulea_os.Queue.Links.Chain.{has, IsRing}
use nebulea_os.Queue.Links.Adding.{queue_add-IsRing}
use nebulea_os.Queue.Links.Removing.{queue_del-IsRing}
use nebulea_os.Queue.Links.Leaving.{queue_out-IsRing}
use nebulea_os.Queue.Links.Walking.{IsRing-elements}

-- The head at 100, and elements at 200 and 300 with their links 4 bytes behind.
abbrev links : Links
links = set_next 100 204 (
    set_next 204 304 (
      set_next 304 100 (
        set_prev 100 304
          (set_prev 304 204 (set_prev 204 100 (record { prev = λ p. 0; next = λ p. 0 }))))))

abbrev elements : List ℕ
elements = 204 ∷ 304 ∷ []

abbrev prio : ℕ → ℤ
prio p = if p == 200 then pos 1 else if p == 300 then pos 5 else pos 3

links-IsRing : IsRing links 100 elements
links-IsRing = record {
  chain = (refl, refl, (refl, refl, (refl, refl)));
  once = (refl, (refl, (refl, tt)));
  not_null = refl;
}

queue_add-IsRing_example :
    (l' : Links) × (queue_add 4 prio 400 100 3 links ≡ some l')
    × IsRing l' 100 (insert (link_prio 4 prio) (link_field 4 400) elements)
    × ((r : ℕ)
        → has r (link_field 4 400 ∷ 100 ∷ elements) ≡ false
        → (l'.next r ≡ links.next r) × (l'.prev r ≡ links.prev r))
queue_add-IsRing_example =
    queue_add-IsRing 4 prio 400 100 3 links elements links-IsRing refl refl (omega arith)

queue_del-IsRing_example :
    (l' : Links) × (queue_del 4 200 links ≡ some l')
    × IsRing l' 100 (delete (link_field 4 200) elements)
    × (is_unlinked (link_field 4 200) l' ≡ true)
    × ((r : ℕ)
        → has r (100 ∷ elements) ≡ false
        → (l'.next r ≡ links.next r) × (l'.prev r ≡ links.prev r))
queue_del-IsRing_example = queue_del-IsRing 4 200 100 links elements links-IsRing refl

queue_out-IsRing_example :
    ((queue_out 4 100 links).0 ≡ Option.map (queue_entry 4) (top elements))
    × IsRing (queue_out 4 100 links).1 100 (without_top elements)
    × ((t : ℕ) → top elements ≡ some t → is_unlinked t (queue_out 4 100 links).1 ≡ true)
    × ((r : ℕ)
        → has r (100 ∷ elements) ≡ false
        → ((queue_out 4 100 links).1.next r ≡ links.next r)
          × ((queue_out 4 100 links).1.prev r ≡ links.prev r))
queue_out-IsRing_example = queue_out-IsRing 4 100 links elements links-IsRing

IsRing-elements_example :
    (queue_for_each 4 100 3 links ≡ some (map (queue_entry 4) elements))
    × (queue_for_each_prev 4 100 3 links ≡ some (reverse (map (queue_entry 4) elements)))
    × (queue_top 4 100 links ≡ Option.map (queue_entry 4) (top elements))
    × (queue_bottom 4 100 links ≡ Option.map (queue_entry 4) (bottom elements))
IsRing-elements_example = IsRing-elements 4 100 3 links elements links-IsRing (omega arith)

-- The element that leaves is the one at 300.
leaves : (queue_out 4 100 links).0 ≡ some 300
unfolding queue_out queue_empty
leaves = refl
