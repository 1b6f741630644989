-- ===== src/Info/Lines.antt =====
-- The words that kernel/info.c writes in one line of the screen.
use nebulea_os.Base.{
  ℕ, zero, suc, ◌+◌, ◌-◌, ◌<◌, ◌≤◌, ◌≡◌, ◌∙◌, refl, sym, true, false, List, [], ◌∷◌, ◌++◌, leb, ltb,
  ◌==◌, ◌&&◌, if◌then◌else◌, length, get_or, update, arith, Bool-cases, inl, inr, ==_iff, ap,
}
use nebulea_os.Screen.Cursor.{nb_columns, nb_lines, Cells, ptr_mem, word_of, write_car, outside}
use nebulea_os.Info.{write_chars, blank_line}

-- The word `n` where a text stands from the word `p` on, written with `w`.
abbrev pub text_word : (ℕ → ℕ) → List ℕ → (p : ℕ) → Cells → (n : ℕ) → ℕ
text_word w text p cells n =
    if leb p n && ltb n (p + length text) then w (get_or text (n - p) 0) else cells n

text_word-cons :
    (w : ℕ → ℕ) (c : ℕ) (cs : List ℕ) (p : ℕ) (cells : Cells) (n : ℕ)
    → text_word w cs (p + 1) (update cells p (w c)) n ≡ text_word w (c ∷ cs) p cells n
text_word-cons w c cs p cells n = elim (Bool-cases (p == n)) [
  | inl at ↦
      let here : p ≡ n = (==_iff p n).0 at in
      let out : (leb (p + 1) n && ltb n (p + 1 + length cs)) ≡ false = ground arith in
      let in' : (leb p n && ltb n (p + length (c ∷ cs))) ≡ true = ground arith in
      let zero' : n - p ≡ 0 = omega arith in rw (out, in', at, zero') refl
  | inr off ↦ elim (Bool-cases (leb (p + 1) n && ltb n (p + 1 + length cs))) [
    | inl inside ↦
        let in' : (leb p n && ltb n (p + length (c ∷ cs))) ≡ true = ground (arith, inside, off) in
        let next : n - p ≡ suc (n - (p + 1)) = ground (arith, inside) in rw (inside, in', next) refl
    | inr out ↦
        let out' : (leb p n && ltb n (p + length (c ∷ cs))) ≡ false = ground (arith, out, off) in
        rw (out, out', off) refl
  ]
]

-- A word depends on no other word below it.
pub text_word-base :
    (w : ℕ → ℕ) (text : List ℕ) (p : ℕ) (cells cells' : Cells) (n : ℕ)
    → cells n ≡ cells' n
    → text_word w text p cells n ≡ text_word w text p cells' n
text_word-base w text p cells cells' n same = rw same refl

pub text_word-nil : (w : ℕ → ℕ) (p : ℕ) (cells : Cells) (n : ℕ) → text_word w [] p cells n ≡ cells n
text_word-nil w p cells n =
    let out : (leb p n && ltb n (p + 0)) ≡ false = ground arith in rw out refl

-- A text behind a text.
pub text_word-append :
    (w : ℕ → ℕ) (xs ys : List ℕ) (p : ℕ) (cells : Cells) (n : ℕ)
    → text_word w ys (p + length xs) (text_word w xs p cells) n ≡ text_word w (xs ++ ys) p cells n
text_word-append w [] ys p cells n =
    let same : p + 0 ≡ p = omega arith in
    ap (λ q. text_word w ys q (text_word w [] p cells) n) same
    ∙ text_word-base w ys p (text_word w [] p cells) cells n (text_word-nil w p cells n)
text_word-append w (x ∷ xs) ys p cells n =
    let cells1 : Cells = update cells p (w x) in
    let q : ℕ = p + length (x ∷ xs) in
    let same : q ≡ p + 1 + length xs = omega arith in
    text_word-base w ys q (text_word w (x ∷ xs) p cells) (text_word w xs (p + 1) cells1) n
      (sym (text_word-cons w x xs p cells n))
    ∙ ap (λ q. text_word w ys q (text_word w xs (p + 1) cells1) n) same
    ∙ text_word-append w xs ys (p + 1) cells1 n
    ∙ text_word-cons w x (xs ++ ys) p cells n

module _ (fg bg : ℕ) where
  pub write_chars-words :
      (line col : ℕ) (text : List ℕ) (cells : Cells) (n : ℕ)
      → line < nb_lines
      → col + length text ≤ nb_columns
      → write_chars fg bg line col text cells n
        ≡ text_word (λ c. word_of c fg bg) text (ptr_mem line col) cells n
  unfolding write_chars write_car
  write_chars-words line col [] cells n hl hc =
      sym (text_word-nil (λ c. word_of c fg bg) (ptr_mem line col) cells n)
  write_chars-words line col (c ∷ cs) cells n hl hc =
      let p : ℕ = ptr_mem line col in
      let inside : outside line col ≡ false = ground arith in
      let written : write_car line col c fg bg cells ≡ update cells p (word_of c fg bg) =
        rw (write_car, inside) refl in
      let next : ptr_mem line (col + 1) ≡ p + 1 = omega arith in
      write_chars-words line (col + 1) cs (write_car line col c fg bg cells) n hl (omega arith)
      ∙ ap (λ q. text_word (λ d. word_of d fg bg) cs q (write_car line col c fg bg cells) n) next
      ∙ ap (λ cells'. text_word (λ d. word_of d fg bg) cs (p + 1) cells' n) written
      ∙ text_word-cons (λ d. word_of d fg bg) c cs p cells n

blank_line-beyond :
    (rounds line col : ℕ) (cells : Cells)
    → nb_columns ≤ col
    → blank_line rounds line col cells ≡ cells
unfolding blank_line write_car
blank_line-beyond zero line col cells h = refl
blank_line-beyond (suc m) line col cells h =
    let out : outside line col ≡ true = ground arith in
    let same : write_car line col 32 15 0 cells ≡ cells = rw (write_car, out) refl in
    ap (λ cells'. blank_line m line (col + 1) cells') same
    ∙ blank_line-beyond m line (col + 1) cells (omega arith)

-- The word `n` behind the loop that blanks a line from the word `p` to the word before `e`.
abbrev pub blank_word : (p e : ℕ) → Cells → (n : ℕ) → ℕ
blank_word p e cells n = if leb p n && ltb n e then word_of 32 15 0 else cells n

blank_word-next :
    (p e : ℕ) (cells : Cells) (n : ℕ)
    → p < e
    → blank_word (p + 1) e (update cells p (word_of 32 15 0)) n ≡ blank_word p e cells n
blank_word-next p e cells n h = ground arith

pub blank_line-words :
    (rounds line col : ℕ) (cells : Cells) (n : ℕ)
    → line < nb_lines
    → nb_columns ≤ col + rounds
    → blank_line rounds line col cells n
      ≡ blank_word (ptr_mem line col) (ptr_mem line nb_columns) cells n
unfolding blank_line write_car
blank_line-words zero line col cells n hl hr =
    let out : (leb (ptr_mem line col) n && ltb n (ptr_mem line nb_columns)) ≡ false =
      ground (arith, hr) in
    rw out refl
blank_line-words (suc m) line col cells n hl hr = elim (Bool-cases (ltb col nb_columns)) [
  | inl inside ↦
      let p : ℕ = ptr_mem line col in
      let within : outside line col ≡ false = ground (arith, inside) in
      let written : write_car line col 32 15 0 cells ≡ update cells p (word_of 32 15 0) =
        rw (write_car, within) refl in
      let next : ptr_mem line (col + 1) ≡ p + 1 = omega arith in
      ap (λ cells'. blank_line m line (col + 1) cells' n) written
      ∙ blank_line-words m line (col + 1) (update cells p (word_of 32 15 0)) n hl (omega arith)
      ∙ ap (λ q. blank_word q (ptr_mem line nb_columns) (update cells p (word_of 32 15 0)) n) next
      ∙ blank_word-next p (ptr_mem line nb_columns) cells n (ground (arith, inside))
  | inr beyond ↦
      let none_left : (leb (ptr_mem line col) n && ltb n (ptr_mem line nb_columns)) ≡ false =
        ground (arith, beyond) in
      ap (λ cells'. cells' n) (blank_line-beyond (suc m) line col cells (ground (arith, beyond)))
      ∙ rw none_left refl
]
