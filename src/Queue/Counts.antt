-- ===== src/Queue/Counts.antt =====
-- How often an element stands in a queue of shared/queue.h, before and after each operation.
use nebulea_os.Base.{ℕ, suc, ◌-◌, ◌≡◌, ◌≢◌, refl, some, List, [], ◌∷◌, ◌==◌, arith, if◌then◌else◌}
use nebulea_os.Base.Int.{ℤ}
use nebulea_os.Queue.{insert, top, without_top, delete}

abbrev pub count : ℕ → List ℕ → ℕ
count r [] = 0
count r (x ∷ xs) = if x == r then suc (count r xs) else count r xs

pub count-insert :
    (prio : ℕ → ℤ) (x : ℕ) (xs : List ℕ) (r : ℕ)
    → count r (insert prio x xs) ≡ (if x == r then suc (count r xs) else count r xs)
unfolding insert
count-insert prio x [] r = refl
count-insert prio x (y ∷ ys) r = ground (arith, count-insert prio x ys r)

pub count-delete :
    (x : ℕ) (xs : List ℕ) (r : ℕ)
    → count r (delete x xs) ≡ (if x == r then count r xs - 1 else count r xs)
unfolding delete
count-delete x [] r = ground arith
count-delete x (y ∷ ys) r = ground (arith, count-delete x ys r)

pub count-top : (xs : List ℕ) (t : ℕ) → top xs ≡ some t → count t xs ≢ 0
unfolding top
count-top [] t h e = cc
count-top (x ∷ []) t h e = ground arith
count-top (x ∷ y ∷ ys) t h e = ground (arith, count-top (y ∷ ys) t h)

pub count-without_top :
    (xs : List ℕ) (t r : ℕ)
    → top xs ≡ some t
    → count r (without_top xs) ≡ (if t == r then count r xs - 1 else count r xs)
unfolding top without_top
count-without_top [] t r h = cc
count-without_top (x ∷ []) t r h = ground arith
count-without_top (x ∷ y ∷ ys) t r h =
    ground (arith, count-without_top (y ∷ ys) t r h, count-top (y ∷ ys) t h)
