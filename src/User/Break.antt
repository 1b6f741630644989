-- ===== src/User/Break.antt =====
-- `sbrk` of user/lib/sbrk.c: the break of a program's heap of fixed size. Addresses are words of 32 bits.
use nebulea_os.Base.{
  ℕ, suc, ◌+◌, ◌-◌, ◌%◌, ◌^◌, ◌<◌, ◌≤◌, ◌≡◌, refl, Bool, true, false, Option, none, some, ltb, leb,
  ◌||◌, if◌then◌else◌, arith, Bool-cases, inl, inr,
}
use nebulea_os.Base.Int.{ℤ, pos, negsuc, pos_part, neg_part}
use nebulea_os.User.{of_int}

abbrev pub heap_size : ℕ
heap_size = 0x1000

-- The heap from an address on; the state is `current`. `none` is the source's (void *)-1.
module _ (heap : ℕ) where
  abbrev pub heap_end : ℕ
  heap_end = heap + heap_size

  unfoldable pub sbrk : (increment : ℤ) → (current : ℕ) → Option ℕ × ℕ
  sbrk increment current =
      let c : ℕ = (current + of_int increment) % 2 ^ 32 in
      if ltb c current || ltb heap_end c then (none, current) else (some current, c)

  -- The break is in the heap or at its end.
  pub record InHeap (current : ℕ) : Type 0 where
    pub above : heap ≤ current
    pub below : current ≤ heap_end

  -- Whether a number of bytes is left.
  abbrev pub grants : (increment : ℤ) → (current : ℕ) → Bool
  grants (pos n) current = leb n (heap_end - current)
  grants (negsuc n) current = false

  -- For a heap that ends below 2 ^ 32, a break in it and an increment of 32 bits: sbrk answers
  -- the break and moves it on by the increment where this is not negative and as much is left of
  -- the heap; it answers -1 and leaves the break as it is otherwise, and so for every negative
  -- increment. The break stays in the heap.
  pub sbrk-grants :
      (increment : ℤ) (current : ℕ)
      → heap_end < 2 ^ 32
      → pos_part increment < 2 ^ 31
      → neg_part increment < 2 ^ 31 + 1
      → InHeap current
      → (sbrk increment current ≡ (
          if grants increment current
          then (some current, current + pos_part increment)
          else (none, current)))
        × InHeap (sbrk increment current).1
  unfolding sbrk
  sbrk-grants (pos n) current he hp hn i = elim (Bool-cases (leb n (heap_end - current))) [
    | inl left ↦
        let c : (current + n) % 2 ^ 32 ≡ current + n = ground (arith, left, i.below) in
        let ok : (ltb (current + n) current || ltb heap_end (current + n)) ≡ false =
          ground (arith, left, i.below) in
        rw (c, ok, left)
          (refl, record { above = omega (arith, i.above); below = ground (arith, left, i.below) })
    | inr full ↦
        let no : (ltb ((current + n) % 2 ^ 32) current || ltb heap_end ((current + n) % 2 ^ 32))
            ≡ true =
          ground (arith, full, i.below) in
        rw (no, full) (refl, i)
  ]
  sbrk-grants (negsuc n) current he hp hn i =
      let c : ℕ = (current + (2 ^ 32 - suc n)) % 2 ^ 32 in
      let no : (ltb c current || ltb heap_end c) ≡ true = ground (arith, i.above, i.below) in
      rw no (refl, i)
