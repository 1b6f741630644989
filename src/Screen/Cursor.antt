-- ===== src/Screen/Cursor.antt =====
-- kernel/screen.c: characters that move the cursor and fill the text buffer of the screen. `memmove` of the
-- C library is an argument. The ports of the cursor are left out: they get what the cursor is.
use Prim.Native.Nat.{bit_or}
use nebulea_os.Base.{
  ℕ, zero, suc, ◌+◌, ◌-◌, ◌*◌, ◌%◌, ◌^◌, ◌<◌, Bool, List, [], ◌∷◌, arith, ◌==◌, ◌&&◌, ◌||◌, ltb,
  leb, if◌then◌else◌, update, inl, inr, Bool-cases,
}

abbrev pub nb_columns : ℕ
nb_columns = 80

abbrev pub nb_lines : ℕ
nb_lines = 25

abbrev pub info_size : ℕ
info_size = 6

-- The words of 16 bits from `STARTING_ADDRESS` on, by their number.
abbrev pub Cells : Type 0
Cells = ℕ → ℕ

-- `memmove` on these words: the first to write, the first to read, and the size in bytes.
abbrev pub Memmove : Type 0
Memmove = Cells → (dest src size : ℕ) → Cells

-- `current_lig`, `current_col` and the colours
pub record Screen : Type 0 where
  pub lig : ℕ
  pub col : ℕ
  pub background : ℕ
  pub foreground : ℕ
  pub cells : Cells

-- The number of the word at `ptr_mem(lig, col)`
abbrev pub ptr_mem : (lig col : ℕ) → ℕ
ptr_mem lig col = lig * nb_columns + col

abbrev pub outside : (lig col : ℕ) → Bool
outside lig col = leb nb_lines lig || leb nb_columns col

abbrev pub word_of : (c fg bg : ℕ) → ℕ
word_of c fg bg = bit_or (bit_or (bg * 2 ^ 12) (fg * 2 ^ 8)) c % 2 ^ 16

unfoldable pub write_car : (lig col c fg bg : ℕ) → Cells → Cells
write_car lig col c fg bg cells =
    if outside lig col then cells else update cells (ptr_mem lig col) (word_of c fg bg)

-- The inner loop over the columns from `j`, with the rounds left
unfoldable pub clear_line : (rounds j lig : ℕ) → Cells → Cells
clear_line zero j lig cells = cells
clear_line (suc n) j lig cells = clear_line n (j + 1) lig (write_car lig j 32 15 0 cells)

unfoldable pub clear_lines : (rounds i : ℕ) → Cells → Cells
clear_lines zero i cells = cells
clear_lines (suc n) i cells = clear_lines n (i + 1) (clear_line nb_columns 0 i cells)

unfoldable pub clear_screen : Cells → Cells
clear_screen cells = clear_lines nb_lines 0 cells

unfoldable pub set_cursor : (lig col : ℕ) → Screen → Screen
set_cursor lig col s = if outside lig col then s else record s { lig = lig; col = col }

unfoldable pub scroll : Memmove → Cells → Cells
scroll memmove cells = clear_line nb_columns 0 (nb_lines - 1) (
    memmove cells (nb_columns * info_size) (nb_columns * (info_size + 1))
      (nb_columns * (nb_lines - info_size - 1) * 2 * 8))

abbrev pub backspace : Screen → Screen
backspace s =
    let t : Screen = if s.col == 0 then s else record s { col = s.col - 1 } in
    set_cursor t.lig t.col t

abbrev pub tab_stop : ℕ → ℕ
tab_stop col = (col - col % 4 + 4) % 2 ^ 8

abbrev pub tab : Screen → Screen
tab s =
    let col : ℕ = if leb nb_columns (tab_stop s.col) then nb_columns - 1 else tab_stop s.col in
    set_cursor s.lig col (record s { col = col })

abbrev pub newline : Memmove → Screen → Screen
newline memmove s =
    let t : Screen =
      if ltb s.lig (nb_lines - 1)
      then record s { lig = s.lig + 1; col = 0 }
      else record s { col = 0; cells = scroll memmove s.cells } in
    set_cursor t.lig t.col t

abbrev pub form_feed : Screen → Screen
form_feed s = set_cursor 0 0 (record s { lig = 0; col = 0; cells = clear_screen s.cells })

abbrev pub carriage_return : Screen → Screen
carriage_return s = set_cursor s.lig 0 (record s { col = 0 })

-- The cursor after a printable character, whose word is written already
abbrev pub advance : Memmove → Screen → Screen
advance memmove s =
    if s.col == nb_columns - 1
    then (if s.lig == nb_lines - 1
        then record s { col = 0; cells = scroll memmove s.cells }
        else record s { lig = (s.lig + 1) % 2 ^ 8; col = 0 })
    else record s { col = (s.col + 1) % 2 ^ 8 }

abbrev pub printable : Memmove → ℕ → Screen → Screen
printable memmove c s =
    let t : Screen =
      advance memmove
        (record s { cells = write_car s.lig s.col c s.foreground s.background s.cells }) in
    set_cursor t.lig t.col t

-- A byte from 128 on is a negative `char`, and is left out as those below 32.
unfoldable pub handle_car : Memmove → ℕ → Screen → Screen
handle_car memmove c s =
    if c == 8
    then backspace s
    else if c == 9
    then tab s
    else if c == 10
    then newline memmove s
    else if c == 12
    then form_feed s
    else if c == 13
    then carriage_return s
    else if ltb 31 c && ltb c 127
    then printable memmove c s
    else s

unfoldable pub console_putbytes : Memmove → List ℕ → Screen → Screen
console_putbytes memmove [] s = s
console_putbytes memmove (c ∷ cs) s = console_putbytes memmove cs (handle_car memmove c s)

-- The cursor is on the screen.
pub record IsInside (s : Screen) : Type 0 where
  pub lig_in : s.lig < nb_lines
  pub col_in : s.col < nb_columns

set_cursor-IsInside : (lig col : ℕ) (s : Screen) → IsInside s → IsInside (set_cursor lig col s)
unfolding set_cursor
set_cursor-IsInside lig col s h = elim (Bool-cases (outside lig col)) [
  | inl out ↦ rw out h
  | inr in' ↦ rw in' (record { lig_in = ground arith; col_in = ground arith })
]

module _ (memmove : Memmove) where
  newline-IsInside : (s : Screen) → IsInside s → IsInside (newline memmove s)
  newline-IsInside s h = elim (Bool-cases (ltb s.lig (nb_lines - 1))) [
    | inl above ↦
        rw above
          (set_cursor-IsInside _ _ _ (record { lig_in = ground arith; col_in = omega arith }))
    | inr last ↦
        rw last (set_cursor-IsInside _ _ _ (record { lig_in = h.lig_in; col_in = omega arith }))
  ]

  backspace-IsInside : (s : Screen) → IsInside s → IsInside (backspace s)
  backspace-IsInside s h = elim (Bool-cases (s.col == 0)) [
    | inl first ↦ rw first (set_cursor-IsInside _ _ _ h)
    | inr later ↦
        rw later (
          set_cursor-IsInside _ _ _
            (record { lig_in = h.lig_in; col_in = omega (arith, h.col_in) }))
  ]

  tab-IsInside : (s : Screen) → IsInside s → IsInside (tab s)
  tab-IsInside s h = elim (Bool-cases (leb nb_columns (tab_stop s.col))) [
    | inl far ↦
        rw far (set_cursor-IsInside _ _ _ (record { lig_in = h.lig_in; col_in = omega arith }))
    | inr near ↦
        rw near (set_cursor-IsInside _ _ _ (record { lig_in = h.lig_in; col_in = ground arith }))
  ]

  advance-IsInside : (s : Screen) → IsInside s → IsInside (advance memmove s)
  advance-IsInside s h = elim (Bool-cases (s.col == nb_columns - 1)) [
    | inl end' ↦ elim (Bool-cases (s.lig == nb_lines - 1)) [
      | inl last ↦ rw (end', last) (record { lig_in = h.lig_in; col_in = omega arith })
      | inr above ↦
          rw (end', above) (record { lig_in = ground (arith, h.lig_in); col_in = omega arith })
    ]
    | inr before ↦ rw before (record { lig_in = h.lig_in; col_in = ground (arith, h.col_in) })
  ]

  pub handle_car-IsInside : (c : ℕ) (s : Screen) → IsInside s → IsInside (handle_car memmove c s)
  unfolding handle_car
  handle_car-IsInside c s h = elim (Bool-cases (c == 8)) [
    | inl yes' ↦ rw yes' (backspace-IsInside s h)
    | inr a ↦ elim (Bool-cases (c == 9)) [
      | inl yes' ↦ rw (a, yes') (tab-IsInside s h)
      | inr b ↦ elim (Bool-cases (c == 10)) [
        | inl yes' ↦ rw (a, b, yes') (newline-IsInside s h)
        | inr d ↦ elim (Bool-cases (c == 12)) [
          | inl yes' ↦
              rw (a, b, d, yes')
                (set_cursor-IsInside 0 0 _ (record { lig_in = omega arith; col_in = omega arith }))
          | inr e ↦ elim (Bool-cases (c == 13)) [
            | inl yes' ↦
                rw (a, b, d, e, yes')
                  (set_cursor-IsInside _ _ _ (record { lig_in = h.lig_in; col_in = omega arith }))
            | inr f ↦ elim (Bool-cases (ltb 31 c && ltb c 127)) [
              | inl yes' ↦
                  rw (a, b, d, e, f, yes')
                    (set_cursor-IsInside _ _ _
                      (advance-IsInside _ (record { lig_in = h.lig_in; col_in = h.col_in })))
              | inr g ↦ rw (a, b, d, e, f, g) h
            ]
          ]
        ]
      ]
    ]
  ]

  -- Where the cursor is on the screen of 25 lines and 80 columns, it is so after console_putbytes
  -- of any bytes.
  pub console_putbytes-IsInside :
      (cs : List ℕ) (s : Screen) → IsInside s → IsInside (console_putbytes memmove cs s)
  unfolding console_putbytes
  console_putbytes-IsInside [] s h = h
  console_putbytes-IsInside (c ∷ cs) s h =
      console_putbytes-IsInside cs (handle_car memmove c s) (handle_car-IsInside c s h)
