-- ===== src/HashTable/Copying.antt =====
-- `hash_copy` of kernel/hash.c: the slots of one table are put into another.
use nebulea_os.Base.{
  ℕ, zero, suc, ◌+◌, ◌-◌, ◌^◌, ◌≤◌, ◌<◌, ◌≡◌, refl, sym, ◌∙◌, Bool, true, false, Option, none, some,
  arith, ◌==◌, inl, inr, Bool-cases, update,
}
use nebulea_os.HashTable.Table.{
  Text, HashMap, HashSlot, SlotMode, is_active, is_empty_slot, hash_copy, empty_slot,
}
use nebulea_os.HashTable.Counting.{tally, tally_none}
use nebulea_os.HashTable.Searching.{SlotMode-cases, both_ways}
use nebulea_os.HashTable.Valid.{
  same_key, active_at, in_use, active_slot, Placed, Counted, Absent, Located, hash_lookup-Located,
}
use nebulea_os.HashTable.Writing.{insert-Placed, write-Counted}
use nebulea_os.HashTable.Holding.{Holds}

-- The map with another table of another size.
abbrev pub shaped : HashMap → (fill count mask : ℕ) → (ℕ → HashSlot) → HashMap
shaped m f c k t = record m { fill = f; count = c; mask = k; table = t }

-- Slot `r` of a table is a copy of slot `q` of the map.
abbrev pub Copies : HashMap → (ℕ → HashSlot) → (q r : ℕ) → Type 0
Copies m t q r =
    (is_active (t r).mode ≡ true)
    × ((t r).key ≡ (m.table q).key)
    × ((t r).value ≡ (m.table q).value)

-- The new table holds the active slots below `i`, and nothing else.
pub record Copied (text : Text) (m : HashMap) (i c k : ℕ) (t : ℕ → HashSlot) : Type 0 where
  pub placed : Placed text (shaped m c c k t)
  pub counts : Counted (shaped m c c k t)
  pub so_far : c ≡ tally active_slot m.table i
  pub over : (q : ℕ) → q < i → active_at m q ≡ true → (r : ℕ) × (r ≤ k) × Copies m t q r
  pub back :
      (r : ℕ)
      → r ≤ k
      → is_active (t r).mode ≡ true
      → (q : ℕ) × (q < i) × (active_at m q ≡ true) × Copies m t q r
  pub fresh : (r : ℕ) → r ≤ k → is_active (t r).mode ≡ false → is_empty_slot (t r).mode ≡ true

pub tally-le :
    (p : HashSlot → Bool) (t : ℕ → HashSlot) (i n : ℕ) → i ≤ n → tally p t i ≤ tally p t n
tally-le p t i zero h = let e : i ≡ 0 = omega arith in rw e (omega arith)
tally-le p t i (suc n) h = elim (Bool-cases (i == suc n)) [
  | inl all ↦ let e : i ≡ suc n = ground arith in rw e (omega arith)
  | inr some' ↦ ground (arith, tally-le p t i n (ground arith))
]

module _ (text : Text) (m : HashMap) (p : Placed text m) (k : ℕ) where
  -- A slot that is not active is passed over.
  pub skip-Copied :
      (i c : ℕ) (t : ℕ → HashSlot)
      → Copied text m i c k t
      → active_at m i ≡ false
      → Copied text m (suc i) c k t
  skip-Copied i c t d e = record {
    placed = d.placed;
    counts = d.counts;
    so_far = rw e d.so_far;
    over = λ q lt a. elim (Bool-cases (q == i)) [
      | inl now ↦ let same : q ≡ i = ground arith in absurd (both_ways _ (rw same at a) e)
      | inr early ↦ d.over q (ground arith) a
    ];
    back = λ r lt a. let (q, early, was, copy) = d.back r lt a in (q, omega arith, was, copy);
    fresh = d.fresh;
  }

  -- The key of an active slot is not in the new table before its turn.
  not_yet :
      (i c : ℕ) (t : ℕ → HashSlot)
      → Copied text m i c k t
      → i ≤ m.mask
      → active_at m i ≡ true
      → Absent text (shaped m c c k t) (m.table i).key
  not_yet i c t d lt a r inside there =
      let (q, early, was, (_, key, _)) = d.back r inside there in
      elim (Bool-cases (same_key text m (t r).key (m.table i).key)) [
        | inl same ↦
            let e : q ≡ i = p.unique q i (omega arith) lt was a (rw key at same) in
            absurd (omega arith)
        | inr other ↦ other
      ]

  -- An active slot goes to the place that the search gives.
  copy-Copied :
      (i c : ℕ) (t : ℕ → HashSlot)
      → Copied text m i c k t
      → i ≤ m.mask
      → active_at m i ≡ true
      → tally active_slot m.table (m.mask + 1) < k + 1
      → (r : ℕ) → Located text (shaped m c c k t) (m.table i).key r
      → Copied text m
          (suc i)
          (c + 1)
          k
          (update t r (record (m.table i) { mode = SlotMode.sl_active }))
  copy-Copied i c t d lt a fits r found =
      let s : HashSlot = record (m.table i) { mode = SlotMode.sl_active } in
      let absent : Absent text (shaped m c c k t) (m.table i).key = not_yet i c t d lt a in
      let unused : is_active (t r).mode ≡ false = elim (Bool-cases (is_active (t r).mode)) [
        | inl there ↦ elim found.outcome [
          | inl (_, same) ↦ absurd (both_ways _ same (absent r found.inside there))
          | inr (out, _) ↦ out
        ]
        | inr out ↦ out
      ] in
      let empty : is_empty_slot (t r).mode ≡ true = d.fresh r found.inside unused in
      let step_up : tally active_slot m.table (suc i) ≡ suc (tally active_slot m.table i) =
        rw a refl in
      let self : (r == r) ≡ true = ground arith in
      let kept : (r' : ℕ) → is_active (t r').mode ≡ true → (r == r') ≡ false = λ r' active.
        elim (Bool-cases (r == r')) [
          | inl here ↦ let e : r ≡ r' = ground arith in absurd (both_ways _ active (rw e at unused))
          | inr else' ↦ else'
        ] in
      let fits' : c + 1 < k + 1 = omega (
        arith,
        fits,
        d.so_far,
        tally-le active_slot m.table (suc i) (m.mask + 1) (omega arith),
        step_up,
      ) in
      record {
        placed =
            insert-Placed text (shaped m c c k t) d.placed r s (c + 1) (c + 1) (p.hashed i lt a)
              refl found.inside found.reached absent;
        counts =
            write-Counted (shaped m c c k t) r s (c + 1) (c + 1) d.counts found.inside
              (rw empty (omega arith)) (rw unused (omega arith)) fits';
        so_far = rw a (omega (arith, d.so_far));
        over = λ q lt' was. elim (Bool-cases (q == i)) [
          | inl now ↦
              let e : q ≡ i = ground arith in (r, found.inside, rw (self, e) (refl, refl, refl))
          | inr early ↦
              let (r', inside, copy) = d.over q (ground arith) was in
              (r', inside, rw (kept r' copy.0) copy)
        ];
        back = λ r' lt' active. elim (Bool-cases (r == r')) [
          | inl here ↦ (i, omega arith, a, rw here (refl, refl, refl))
          | inr else' ↦
              let (q, early, was, copy) = d.back r' lt' (rw else' at active) in
              (q, omega arith, was, rw else' copy)
        ];
        fresh = λ r' lt' out. elim (Bool-cases (r == r')) [
          | inl here ↦ absurd (both_ways _ refl (rw here at out))
          | inr else' ↦ rw else' (d.fresh r' lt' (rw else' at out))
        ];
      }

  -- The loop ends, and has copied every slot.
  pub hash_copy-Copied :
      (n i c : ℕ) (t : ℕ → HashSlot)
      → i + n ≡ m.mask + 1
      → tally active_slot m.table (m.mask + 1) < k + 1
      → Copied text m i c k t
      → (c' : ℕ) × (t' : ℕ → HashSlot) × (hash_copy text m.table n i (shaped m c c k t)
          ≡ some (shaped m c' c' k t'))
        × Copied text m (m.mask + 1) c' k t'
  unfolding hash_copy
  hash_copy-Copied zero i c t e fits d =
      let all : i ≡ m.mask + 1 = omega arith in (c, t, refl, rw all at d)
  hash_copy-Copied (suc n) i c t e fits d =
      let next : suc i ≡ i + 1 = omega arith in
      elim (SlotMode-cases (m.table i).mode) [
        | inl empty ↦
            rw (empty, hash_copy)
              (hash_copy-Copied n (i + 1) c t (omega arith) fits
                (rw next at (skip-Copied i c t d (rw empty refl))))
        | inr (inl active) ↦
            let (r, found, l) =
              hash_lookup-Located text (shaped m c c k t) (m.table i).key d.placed d.counts in
            rw (active, found, hash_copy)
              (hash_copy-Copied n (i + 1) (c + 1)
                (update t r (record (m.table i) { mode = SlotMode.sl_active })) (omega arith) fits
                (rw next at (copy-Copied i c t d (omega arith) (rw active refl) fits r l)))
        | inr (inr deleted) ↦
            rw (deleted, hash_copy)
              (hash_copy-Copied n (i + 1) c t (omega arith) fits
                (rw next at (skip-Copied i c t d (rw deleted refl))))
      ]

  -- An empty table to start with.
  pub start-Copied :
      (bits : ℕ) → k ≡ 2 ^ bits - 1 → 3 ≤ bits → bits ≤ 32 → Copied text m 0 0 k (λ i. empty_slot)
  start-Copied bits size at_least at_most = record {
    placed = record {
      keying = p.keying;
      bits = bits;
      size = size;
      at_least = at_least;
      at_most = at_most;
      hashed = λ i lt a. absurd (both_ways _ a refl);
      unique = λ i j li lj ai aj e. absurd (both_ways _ ai refl);
      reach = λ i lt a. absurd (both_ways _ a refl);
    };
    counts = record {
      filled = sym (tally_none in_use empty_slot (k + 1) refl);
      counted = sym (tally_none active_slot empty_slot (k + 1) refl);
      room = omega arith;
    };
    so_far = refl;
    over = λ q lt a. absurd (omega arith);
    back = λ r lt a. absurd (both_ways _ a refl);
    fresh = λ r lt out. refl;
  }

  -- What the whole map holds, its copy holds.
  pub Copied-Holds :
      (c : ℕ) (t : ℕ → HashSlot) (key : ℕ) (o : Option ℕ)
      → Copied text m (m.mask + 1) c k t
      → Holds text m key o
      → Holds text (shaped m c c k t) key o
  Copied-Holds c t key none d absent =
      λ r lt a. let (q, early, was, (_, e, _)) = d.back r lt a in rw e (absent q (omega arith) was)
  Copied-Holds c t key (some v) d (q, lt, was, same, value) =
      let (r, inside, (a, e, w)) = d.over q (omega arith) was in
      (r, inside, a, rw e same, w ∙ value)
