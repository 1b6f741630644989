-- ===== src/Info/Titles.antt =====
-- The titles of the tables of kernel/info.c, which stay when the tables are written.
use nebulea_os.Base.{
  ℕ, ◌+◌, ◌-◌, ◌<◌, ◌≡◌, ◌∙◌, refl, true, false, List, leb, ltb, ◌&&◌, length, get_or, arith,
}
use nebulea_os.Kernel.Types.{Kernel}
use nebulea_os.Screen.Cursor.{nb_columns, nb_lines, Cells, Screen, ptr_mem, word_of}
use nebulea_os.Info.{
  Formats, process_table_title, queue_table_title, activable_title, finished_title, write_info,
  write_info_titles, sys_info,
}
use nebulea_os.Info.Lines.{text_word, write_chars-words}
use nebulea_os.Info.Shown.{sys_info-Shown}

-- A line from its start on shows a text.
abbrev pub Titled : (fg bg line : ℕ) → List ℕ → Cells → Type 0
Titled fg bg line text cells =
    (col : ℕ) → col < length text → cells (ptr_mem line col) ≡ word_of (get_or text col 0) fg bg

module _ (fg bg : ℕ) where
  title-words :
      (line : ℕ) (text : List ℕ) (cells : Cells) (n : ℕ)
      → line < nb_lines
      → leb (length text) nb_columns ≡ true
      → write_info fg bg line 0 text cells n
        ≡ text_word (λ c. word_of c fg bg) text (ptr_mem line 0) cells n
  unfolding write_info
  title-words line text cells n hl ht =
      let fits : leb (0 + length text) nb_columns ≡ true = ground (arith, ht) in
      rw (write_info, fits) (write_chars-words fg bg line 0 text cells n hl (ground (arith, ht)))

  title-other :
      (line : ℕ) (text : List ℕ) (cells : Cells) (n : ℕ)
      → line < nb_lines
      → leb (length text) nb_columns ≡ true
      → (leb (ptr_mem line 0) n && ltb n (ptr_mem line 0 + length text)) ≡ false
      → write_info fg bg line 0 text cells n ≡ cells n
  title-other line text cells n hl ht out = title-words line text cells n hl ht ∙ rw out refl

  title-Titled :
      (line : ℕ) (text : List ℕ) (cells : Cells)
      → line < nb_lines
      → leb (length text) nb_columns ≡ true
      → Titled fg bg line text (write_info fg bg line 0 text cells)
  title-Titled line text cells hl ht col hc =
      let n : ℕ = ptr_mem line col in
      let inside : (leb (ptr_mem line 0) n && ltb n (ptr_mem line 0 + length text)) ≡ true =
        ground arith in
      let at : n - ptr_mem line 0 ≡ col = omega arith in
      title-words line text cells n hl ht ∙ rw (inside, at) refl

  -- The four titles stand in their lines.
  write_info_titles-Titled :
      (cells : Cells)
      → Titled fg bg 1 process_table_title (write_info_titles fg bg cells)
        × Titled fg bg 2 queue_table_title (write_info_titles fg bg cells)
        × Titled fg bg 3 activable_title (write_info_titles fg bg cells)
        × Titled fg bg 4 finished_title (write_info_titles fg bg cells)
  unfolding write_info_titles
  write_info_titles-Titled cells = (
    (λ col h.
        let n : ℕ = ptr_mem 1 col in
        title-other 4 finished_title _ n (omega arith) (ground arith) (ground arith)
        ∙ title-other 3 activable_title _ n (omega arith) (ground arith) (ground arith)
        ∙ title-other 2 queue_table_title _ n (omega arith) (ground arith) (ground arith)
        ∙ title-Titled 1 process_table_title _ (omega arith) refl col h),
    (λ col h.
        let n : ℕ = ptr_mem 2 col in
        title-other 4 finished_title _ n (omega arith) (ground arith) (ground arith)
        ∙ title-other 3 activable_title _ n (omega arith) (ground arith) (ground arith)
        ∙ title-Titled 2 queue_table_title _ (omega arith) refl col h),
    (λ col h.
        let n : ℕ = ptr_mem 3 col in
        title-other 4 finished_title _ n (omega arith) (ground arith) (ground arith)
        ∙ title-Titled 3 activable_title _ (omega arith) refl col h),
    (λ col h.
        let n : ℕ = ptr_mem 4 col in title-Titled 4 finished_title _ (omega arith) refl col h),
  )

-- The four titles that the kernel writes when it starts stay in their lines when sys_info writes
-- the tables, in any state.
pub write_info_titles-sys_info :
    (formats : Formats) (k : Kernel) (s : Screen) (cells : Cells)
    → Titled s.foreground s.background 1 process_table_title
        (sys_info formats k s (write_info_titles s.foreground s.background cells))
      × Titled s.foreground s.background 2 queue_table_title
          (sys_info formats k s (write_info_titles s.foreground s.background cells))
      × Titled s.foreground s.background 3 activable_title
          (sys_info formats k s (write_info_titles s.foreground s.background cells))
      × Titled s.foreground s.background 4 finished_title
          (sys_info formats k s (write_info_titles s.foreground s.background cells))
write_info_titles-sys_info formats k s cells =
    let titles = write_info_titles-Titled s.foreground s.background cells in
    let shown = sys_info-Shown formats k s (write_info_titles s.foreground s.background cells) in
    (
      (λ col h. shown.others (ptr_mem 1 col) (ground arith) ∙ titles.0 col h),
      (λ col h. shown.others (ptr_mem 2 col) (ground arith) ∙ titles.1 col h),
      (λ col h. shown.others (ptr_mem 3 col) (ground arith) ∙ titles.2 col h),
      (λ col h. shown.others (ptr_mem 4 col) (ground arith) ∙ titles.3 col h),
    )
