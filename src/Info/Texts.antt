-- ===== src/Info/Texts.antt =====
-- The texts that kernel/info.c writes one behind the other in a line of the screen.
use nebulea_os.Base.{
  ℕ, ◌+◌, ◌-◌, ◌<◌, ◌≤◌, ◌≡◌, ◌∙◌, refl, sym, ap, true, false, List, [], ◌∷◌, ◌++◌, leb,
  if◌then◌else◌, length, length-append, arith, Bool-cases, inl, inr,
}
use nebulea_os.Screen.Cursor.{nb_columns, nb_lines, Cells, ptr_mem, word_of}
use nebulea_os.Info.{write_chars, write_info}
use nebulea_os.Info.Lines.{
  text_word, text_word-base, text_word-nil, text_word-append, write_chars-words,
}

-- Of texts one behind the other, those that fit in a room: from the first that does not, nothing is shown.
abbrev pub fitting : (room : ℕ) → List (List ℕ) → List ℕ
fitting room [] = []
fitting room (t ∷ ts) =
    let rest : List ℕ = fitting (room - length t) ts in
    if leb (length t) room then t ++ rest else []

pub length-fitting : (room : ℕ) (ts : List (List ℕ)) → length (fitting room ts) ≤ room
length-fitting room [] = omega arith
length-fitting room (t ∷ ts) = elim (Bool-cases (leb (length t) room)) [
  | inl fits ↦
      let rest = length-fitting (room - length t) ts in
      let all = length-append t (fitting (room - length t) ts) in
      rw fits (ground (arith, fits, rest, all))
  | inr long ↦ rw long (omega arith)
]

module _ (fg bg : ℕ) where
  abbrev pub write_texts : (line position : ℕ) → List (List ℕ) → Cells → Cells
  write_texts line position [] cells = cells
  write_texts line position (t ∷ ts) cells =
      write_texts line (position + length t) ts (write_info fg bg line position t cells)

  write_texts-beyond :
      (line position : ℕ) (ts : List (List ℕ)) (cells : Cells)
      → nb_columns < position
      → write_texts line position ts cells ≡ cells
  unfolding write_info
  write_texts-beyond line position [] cells h = refl
  write_texts-beyond line position (t ∷ ts) cells h =
      let long : leb (position + length t) nb_columns ≡ false = ground arith in
      let same : write_info fg bg line position t cells ≡ cells = rw (write_info, long) refl in
      ap (λ cells'. write_texts line (position + length t) ts cells') same
      ∙ write_texts-beyond line (position + length t) ts cells (omega arith)

  pub write_texts-words :
      (line position : ℕ) (ts : List (List ℕ)) (cells : Cells) (n : ℕ)
      → line < nb_lines
      → position ≤ nb_columns
      → write_texts line position ts cells n
        ≡ text_word
            (λ c. word_of c fg bg)
            (fitting (nb_columns - position) ts)
            (ptr_mem line position)
            cells
            n
  unfolding write_info
  write_texts-words line position [] cells n hl hp =
      sym (text_word-nil (λ c. word_of c fg bg) (ptr_mem line position) cells n)
  write_texts-words line position (t ∷ ts) cells n hl hp =
      let w : ℕ → ℕ = λ c. word_of c fg bg in
      elim (Bool-cases (leb (position + length t) nb_columns)) [
        | inl fits ↦
            let small : leb (length t) (nb_columns - position) ≡ true = ground (arith, fits) in
            let room : nb_columns - position - length t ≡ nb_columns - (position + length t) =
              omega arith in
            let next : ptr_mem line (position + length t) ≡ ptr_mem line position + length t =
              omega arith in
            let rest : List ℕ = fitting (nb_columns - (position + length t)) ts in
            let written : write_info fg bg line position t cells
                ≡ write_chars fg bg line position t cells =
              rw (write_info, fits) refl in
            let text : fitting (nb_columns - position) (t ∷ ts) ≡ t ++ rest =
              rw (small, room) refl in
            ap (λ cells'. write_texts line (position + length t) ts cells' n) written
            ∙ write_texts-words line (position + length t) ts
                (write_chars fg bg line position t cells) n hl (ground (arith, fits))
            ∙ text_word-base w rest (ptr_mem line (position + length t))
                (write_chars fg bg line position t cells)
                (text_word w t (ptr_mem line position) cells) n
                (write_chars-words fg bg line position t cells n hl (ground (arith, fits)))
            ∙ ap (λ q. text_word w rest q (text_word w t (ptr_mem line position) cells) n) next
            ∙ text_word-append w t rest (ptr_mem line position) cells n
            ∙ ap (λ x. text_word w x (ptr_mem line position) cells n) (sym text)
        | inr long ↦
            let big : leb (length t) (nb_columns - position) ≡ false = ground (arith, long) in
            let same : write_info fg bg line position t cells ≡ cells =
              rw (write_info, long) refl in
            let text : fitting (nb_columns - position) (t ∷ ts) ≡ [] = rw big refl in
            ap (λ cells'. write_texts line (position + length t) ts cells' n) same
            ∙ ap (λ cells'. cells' n)
                (write_texts-beyond line (position + length t) ts cells (ground (arith, long)))
            ∙ sym (text_word-nil w (ptr_mem line position) cells n)
            ∙ ap (λ x. text_word w x (ptr_mem line position) cells n) (sym text)
      ]
