-- ===== src/Tests/Display.antt =====
-- The screen of kernel/screen.c at concrete inputs.
use nebulea_os.Base.{
  ℕ, ◌+◌, ◌-◌, ◌*◌, ◌≤◌, ◌<◌, ◌≡◌, refl, true, false, [], ◌∷◌, arith, ◌&&◌, ltb, leb, if◌then◌else◌,
}
use nebulea_os.Screen.Cursor.{
  info_size, nb_columns, nb_lines, Memmove, Screen, ptr_mem, IsInside, scroll, console_putbytes,
  console_putbytes-IsInside,
}
use nebulea_os.Screen.Scrolling.{IsMemmove, blank, scroll-lines}
use nebulea_os.Screen.Printing.{Printed, console_putbytes-Printed}

abbrev move_words : Memmove
move_words cells dest src size i =
    if leb dest i && ltb (2 * i + 1) (2 * dest + size) then cells ((i - dest) + src) else cells i

move_words-IsMemmove : IsMemmove move_words
move_words-IsMemmove = record {
  moved = λ cells dest src size i low high.
      let e : (leb dest i && ltb (2 * i + 1) (2 * dest + size)) ≡ true = ground arith in rw e refl;
  kept_below = λ cells dest src size i low.
      let e : (leb dest i && ltb (2 * i + 1) (2 * dest + size)) ≡ false = ground arith in rw e refl;
}

abbrev some_screen : Screen
some_screen = record { lig = 24; col = 5; background = 0; foreground = 15; cells = λ i. 3872 }

some_screen-IsInside : IsInside some_screen
some_screen-IsInside = record { lig_in = omega arith; col_in = omega arith }

console_putbytes-IsInside_example :
    IsInside (console_putbytes move_words (72 ∷ 9 ∷ 10 ∷ 105 ∷ 8 ∷ []) some_screen)
console_putbytes-IsInside_example =
    console_putbytes-IsInside move_words (72 ∷ 9 ∷ 10 ∷ 105 ∷ 8 ∷ []) some_screen
      some_screen-IsInside

scroll-lines_example :
    ((l j : ℕ)
      → l < info_size
      → j < nb_columns
      → scroll move_words (λ i. i) (ptr_mem l j) ≡ ptr_mem l j)
    × ((l j : ℕ)
        → info_size ≤ l
        → l < nb_lines - 1
        → j < nb_columns
        → scroll move_words (λ i. i) (ptr_mem l j) ≡ ptr_mem (l + 1) j)
    × ((j : ℕ) → j < nb_columns → scroll move_words (λ i. i) (ptr_mem (nb_lines - 1) j) ≡ blank)
    × ((k : ℕ)
        → nb_lines * nb_columns ≤ k
        → k < 12000
        → scroll move_words (λ i. i) k ≡ k + nb_columns)
scroll-lines_example = scroll-lines move_words move_words-IsMemmove (λ i. i)

console_putbytes-Printed_example :
    Printed some_screen (console_putbytes move_words (72 ∷ 105 ∷ []) some_screen) (72 ∷ 105 ∷ [])
console_putbytes-Printed_example =
    console_putbytes-Printed move_words (72 ∷ 105 ∷ []) some_screen
      (omega arith, omega arith, (omega arith, omega arith, tt)) (omega arith) (omega arith)
