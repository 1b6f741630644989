-- ===== src/Info/Tables.antt =====
-- What `sys_info` of kernel/info.c leaves on the screen.
use nebulea_os.Base.{
  ℕ, zero, suc, ◌+◌, ◌-◌, ◌<◌, ◌≤◌, ◌≡◌, ◌∙◌, refl, Bool, true, false, Option, none, some, List, [],
  ◌∷◌, map, leb, ltb, ◌&&◌, if◌then◌else◌, length, get_or, arith, Bool-cases, inl, inr,
}
use nebulea_os.Kernel.Types.{Ref, Kernel}
use nebulea_os.Screen.Cursor.{nb_columns, nb_lines, Cells, ptr_mem, word_of}
use nebulea_os.Info.{Formats, blank_line}
use nebulea_os.Info.Lines.{text_word, text_word-base, blank_word, blank_line-words}
use nebulea_os.Info.Texts.{fitting, length-fitting, write_texts, write_texts-words}

-- The texts of a table, in the order of its slots.
unfoldable pub entry_texts : (ℕ → Option (List ℕ)) → (rounds i : ℕ) → List (List ℕ)
entry_texts entry zero i = []
entry_texts entry (suc n) i =
    let rest : List (List ℕ) = entry_texts entry n (i + 1) in
    elim (entry i) [ none ↦ rest | some t ↦ t ∷ rest ]

abbrev pub pid_texts : Formats → Kernel → List Ref → List (List ℕ)
pid_texts formats k rs = map (λ r. formats.number_text (k.process_at r).pid) rs

-- The words of a line from its title on.
abbrev pub in_line : (line title : ℕ) → ℕ → Bool
in_line line title n = leb (ptr_mem line title) n && ltb n (ptr_mem line nb_columns)

module _ (fg bg line title : ℕ) (ts : List (List ℕ)) where
  -- A line that is blanked from its title on, with texts.
  abbrev pub table : Cells → Cells
  table cells = write_texts fg bg line title ts (blank_line nb_columns line title cells)

  -- The texts that fit, and blanks behind them.
  abbrev pub Row : Cells → Type 0
  Row cells =
      (col : ℕ)
      → title ≤ col
      → col < nb_columns
      → cells (ptr_mem line col) ≡ (
          if ltb (col - title) (length (fitting (nb_columns - title) ts))
          then word_of (get_or (fitting (nb_columns - title) ts) (col - title) 0) fg bg
          else word_of 32 15 0)

  table-words :
      (cells : Cells) (n : ℕ)
      → line < nb_lines
      → title ≤ nb_columns
      → table cells n
        ≡ text_word
            (λ c. word_of c fg bg)
            (fitting (nb_columns - title) ts)
            (ptr_mem line title)
            (blank_word (ptr_mem line title) (ptr_mem line nb_columns) cells)
            n
  table-words cells n hl ht =
      write_texts-words fg bg line title ts (blank_line nb_columns line title cells) n hl ht
      ∙ text_word-base (λ c. word_of c fg bg) (fitting (nb_columns - title) ts) (ptr_mem line title)
          (blank_line nb_columns line title cells)
          (blank_word (ptr_mem line title) (ptr_mem line nb_columns) cells) n
          (blank_line-words nb_columns line title cells n hl (omega arith))

  pub table-other :
      (cells : Cells) (n : ℕ)
      → line < nb_lines
      → title ≤ nb_columns
      → in_line line title n ≡ false
      → table cells n ≡ cells n
  table-other cells n hl ht out =
      let small = length-fitting (nb_columns - title) ts in
      let no_text : (leb (ptr_mem line title) n
            && ltb n (ptr_mem line title + length (fitting (nb_columns - title) ts)))
          ≡ false =
        ground (arith, out, small, ht) in
      table-words cells n hl ht ∙ rw (no_text, out) refl

  pub table-Row : (cells : Cells) → line < nb_lines → title ≤ nb_columns → Row (table cells)
  table-Row cells hl ht col hc hr =
      let text : List ℕ = fitting (nb_columns - title) ts in
      let n : ℕ = ptr_mem line col in
      let place : n - ptr_mem line title ≡ col - title = omega arith in
      let inside : in_line line title n ≡ true = ground arith in
      table-words cells n hl ht ∙ elim (Bool-cases (ltb (col - title) (length text))) [
        | inl shown ↦
            let here : (leb (ptr_mem line title) n && ltb n (ptr_mem line title + length text))
                ≡ true =
              ground (arith, shown) in
            rw (here, shown, place) refl
        | inr blank ↦
            let gone : (leb (ptr_mem line title) n && ltb n (ptr_mem line title + length text))
                ≡ false =
              ground (arith, blank) in
            rw (gone, blank, inside) refl
      ]
