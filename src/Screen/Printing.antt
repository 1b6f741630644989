-- ===== src/Screen/Printing.antt =====
-- `console_putbytes` of kernel/screen.c on printable text that fits in the line.
use nebulea_os.Base.{
  ℕ, ◌+◌, ◌-◌, ◌*◌, ◌%◌, ◌^◌, ◌<◌, ◌≡◌, refl, true, false, List, [], ◌∷◌, arith, ◌==◌, ◌&&◌, ◌||◌,
  ltb, leb, update, ◌∙◌, length,
}
use nebulea_os.Screen.Cursor.{
  nb_columns, nb_lines, Cells, Memmove, Screen, ptr_mem, outside, word_of, write_car, handle_car,
  set_cursor, console_putbytes,
}

abbrev pub AllPrintable : List ℕ → Type 0
AllPrintable [] = Unit {0}
AllPrintable (c ∷ cs) = (31 < c) × (c < 127) × AllPrintable cs

-- The words from `pos` on show the text in these colours.
abbrev pub Shows : Cells → (pos fg bg : ℕ) → List ℕ → Type 0
Shows cells pos fg bg [] = Unit {0}
Shows cells pos fg bg (c ∷ cs) = (cells pos ≡ word_of c fg bg) × Shows cells (pos + 1) fg bg cs

-- The text stands at the old cursor, nothing else has changed, and the cursor is behind it.
pub record Printed (s s' : Screen) (cs : List ℕ) : Type 0 where
  pub shown : Shows s'.cells (ptr_mem s.lig s.col) s.foreground s.background cs
  pub others :
      (k : ℕ)
      → (ltb k (ptr_mem s.lig s.col) || leb (ptr_mem s.lig s.col + length cs) k) ≡ true
      → s'.cells k ≡ s.cells k
  pub same_lig : s'.lig ≡ s.lig
  pub new_col : s'.col ≡ s.col + length cs

-- The screen after one more character in the line
after_char : ℕ → Screen → Screen
after_char c s = record s {
  col = s.col + 1;
  cells = update s.cells (ptr_mem s.lig s.col) (word_of c s.foreground s.background);
}

print_char :
    (memmove : Memmove) (c : ℕ) (s : Screen)
    → 31 < c
    → c < 127
    → s.lig < nb_lines
    → s.col + 1 < nb_columns
    → handle_car memmove c s ≡ after_char c s
unfolding handle_car write_car set_cursor after_char
print_char memmove c s low high hl hc =
    let a : (c == 8) ≡ false = ground arith in
    let b : (c == 9) ≡ false = ground arith in
    let d : (c == 10) ≡ false = ground arith in
    let e : (c == 12) ≡ false = ground arith in
    let f : (c == 13) ≡ false = ground arith in
    let g : (ltb 31 c && ltb c 127) ≡ true = ground arith in
    let i : (s.col == nb_columns - 1) ≡ false = ground arith in
    let j : outside s.lig s.col ≡ false = ground arith in
    let w : (s.col + 1) % 2 ^ 8 ≡ s.col + 1 = omega arith in
    let l : outside s.lig (s.col + 1) ≡ false = ground arith in
    rw (handle_car, a, b, d, e, f, g, i, write_car, j, set_cursor, w, l) refl

-- For printable characters that end before the last column of a line of the screen,
-- console_putbytes shows them from the cursor on in the colours of the screen, changes no other
-- word, and leaves the cursor behind them.
pub console_putbytes-Printed :
    (memmove : Memmove) (cs : List ℕ) (s : Screen)
    → AllPrintable cs
    → s.lig < nb_lines
    → s.col + length cs < nb_columns
    → Printed s (console_putbytes memmove cs s) cs
unfolding console_putbytes after_char
console_putbytes-Printed memmove [] s ok hl hc = record {
  shown = tt;
  others = λ k out. refl;
  same_lig = refl;
  new_col = omega arith;
}
console_putbytes-Printed memmove (c ∷ cs) s (low, high, ok) hl hc =
    let one = print_char memmove c s low high hl (omega arith) in
    let rest = console_putbytes-Printed memmove cs (after_char c s) ok hl (omega arith) in
    let next : s.lig * 80 + (s.col + 1) ≡ (s.lig * 80 + s.col) + 1 = omega arith in
    let self : (ptr_mem s.lig s.col == ptr_mem s.lig s.col) ≡ true = ground arith in
    rw (console_putbytes, one)
      (record {
        shown = (
          rest.others (ptr_mem s.lig s.col) (ground arith) ∙ rw self refl,
          rw next at rest.shown,
        );
        others = λ k out.
            let away : (ptr_mem s.lig s.col == k) ≡ false = ground arith in
            rest.others k (ground arith) ∙ rw away refl;
        same_lig = rest.same_lig;
        new_col = omega (arith, rest.new_col);
      })
