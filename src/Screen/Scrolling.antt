-- ===== src/Screen/Scrolling.antt =====
-- `scroll` and printed lines of kernel/screen.c: what stands on the screen.
use nebulea_os.Base.{
  ℕ, zero, suc, ◌+◌, ◌-◌, ◌*◌, ◌≤◌, ◌<◌, ◌≡◌, refl, true, false, arith, ◌==◌, if◌then◌else◌, inl,
  inr, Bool-cases, ap, ◌∙◌,
}
use nebulea_os.Screen.Cursor.{
  nb_columns, nb_lines, info_size, Cells, Memmove, ptr_mem, outside, word_of, write_car, clear_line,
  scroll,
}

-- What is documented of `memmove`, on whole words.
pub record IsMemmove (memmove : Memmove) : Type 0 where
  pub moved :
      (cells : Cells) (dest src size i : ℕ)
      → dest ≤ i
      → 2 * i + 1 < 2 * dest + size
      → memmove cells dest src size i ≡ cells ((i - dest) + src)
  pub kept_below :
      (cells : Cells) (dest src size i : ℕ) → i < dest → memmove cells dest src size i ≡ cells i

abbrev pub blank : ℕ
blank = word_of 32 15 0

write_car-at :
    (lig col c fg bg : ℕ) (cells : Cells) (k : ℕ)
    → lig < nb_lines
    → col < nb_columns
    → write_car lig col c fg bg cells k
      ≡ (if ptr_mem lig col == k then word_of c fg bg else cells k)
unfolding write_car
write_car-at lig col c fg bg cells k hl hc =
    let in' : outside lig col ≡ false = ground arith in rw (in', write_car) refl

clear_line-other :
    (n j lig : ℕ) (cells : Cells) (k : ℕ)
    → lig < nb_lines
    → j + n ≤ nb_columns
    → ((i : ℕ) → j ≤ i → i < j + n → (lig * nb_columns + i == k) ≡ false)
    → clear_line n j lig cells k ≡ cells k
unfolding clear_line
clear_line-other zero j lig cells k hl hj out = refl
clear_line-other (suc n) j lig cells k hl hj out =
    clear_line-other n (j + 1) lig _ k hl (omega arith) (λ i a b. out i (omega arith) (omega arith))
    ∙ write_car-at lig j 32 15 0 cells k hl (omega arith)
    ∙ rw (out j (omega arith) (omega arith)) refl

clear_line-blank :
    (n j lig : ℕ) (cells : Cells) (i : ℕ)
    → lig < nb_lines
    → j + n ≤ nb_columns
    → j ≤ i
    → i < j + n
    → clear_line n j lig cells (lig * nb_columns + i) ≡ blank
unfolding clear_line
clear_line-blank zero j lig cells i hl hj a b = absurd (omega arith)
clear_line-blank (suc n) j lig cells i hl hj a b = elim (Bool-cases (j == i)) [
  | inl here ↦
      let e : j ≡ i = ground arith in
      clear_line-other n (j + 1) lig _ (lig * nb_columns + i) hl (omega arith)
        (λ i' a' b'. ground arith)
      ∙ write_car-at lig j 32 15 0 cells (lig * nb_columns + i) hl (omega arith)
      ∙ (let s : (lig * nb_columns + j == lig * nb_columns + i) ≡ true = ground arith in rw s refl)
  | inr there ↦ clear_line-blank n (j + 1) lig _ i hl (omega arith) (ground arith) (omega arith)
]

module _ (memmove : Memmove) (lib : IsMemmove memmove) (cells : Cells) where
  kept_line :
      (k : ℕ)
      → ((i : ℕ) → 0 ≤ i → i < 80 → (1920 + i == k) ≡ false)
      → scroll memmove cells k ≡ memmove cells 480 560 23040 k
  unfolding scroll
  kept_line k out =
      clear_line-other 80 0 24 (memmove cells 480 560 23040) k (omega arith) (omega arith) out

  -- For a memmove that moves words as documented, scroll keeps the first 6 lines of the screen,
  -- moves each line behind them up by one and blanks the last; the words behind the screen move
  -- up by a line too, as far as word 12000.
  pub scroll-lines :
      ((l j : ℕ)
        → l < info_size
        → j < nb_columns
        → scroll memmove cells (ptr_mem l j) ≡ cells (ptr_mem l j))
      × ((l j : ℕ)
          → info_size ≤ l
          → l < nb_lines - 1
          → j < nb_columns
          → scroll memmove cells (ptr_mem l j) ≡ cells (ptr_mem (l + 1) j))
      × ((j : ℕ) → j < nb_columns → scroll memmove cells (ptr_mem (nb_lines - 1) j) ≡ blank)
      × ((k : ℕ)
          → nb_lines * nb_columns ≤ k
          → k < 12000
          → scroll memmove cells k ≡ cells (k + nb_columns))
  unfolding scroll
  scroll-lines = (
    λ l j hl hj.
        kept_line (l * 80 + j) (λ i a b. ground arith)
        ∙ lib.kept_below cells 480 560 23040 (l * 80 + j) (omega arith),
    λ l j low hl hj.
        let e : (l * 80 + j - 480) + 560 ≡ (l + 1) * 80 + j = omega arith in
        kept_line (l * 80 + j) (λ i a b. ground arith)
        ∙ lib.moved cells 480 560 23040 (l * 80 + j) (omega arith) (omega arith)
        ∙ ap cells e,
    λ j hj.
        clear_line-blank 80 0 24 (memmove cells 480 560 23040) j (omega arith) (omega arith)
          (omega arith) (omega arith),
    λ k low high.
        let e : (k - 480) + 560 ≡ k + 80 = omega arith in
        kept_line k (λ i a b. ground arith)
        ∙ lib.moved cells 480 560 23040 k (omega arith) (omega arith)
        ∙ ap cells e,
  )
