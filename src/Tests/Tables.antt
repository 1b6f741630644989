-- ===== src/Tests/Tables.antt =====
-- The tables of kernel/info.c on the screen, for the machine of Tests/Machine.
use nebulea_os.Base.{◌+◌, ◌≡◌, refl, [], ◌∷◌}
use nebulea_os.Screen.Cursor.{Screen, ptr_mem, word_of, write_car}
use nebulea_os.Info.{
  Formats, process_table_title, queue_table_title, activable_title, finished_title,
  write_info_titles, sys_info, write_activable, write_info, write_chars, write_pids, blank_line,
}
use nebulea_os.Info.Shown.{Shown, sys_info-Shown}
use nebulea_os.Info.Titles.{Titled, write_info_titles-sys_info}
use nebulea_os.Tests.Machine.{machine}

-- Numbers of one digit, and a state by one sign.
abbrev formats : Formats
formats = record {
  process_text = λ i state. (48 + i) ∷ 58 ∷ 83 ∷ 32 ∷ [];
  number_text = λ n. (48 + n) ∷ 32 ∷ [];
}

abbrev empty_screen : Screen
empty_screen = record { lig = 6; col = 0; background = 0; foreground = 15; cells = λ i. 0 }

sys_info-Shown_example :
    Shown formats machine empty_screen empty_screen.cells
      (sys_info formats machine empty_screen empty_screen.cells)
sys_info-Shown_example = sys_info-Shown formats machine empty_screen empty_screen.cells

-- The idle process stands first in the line of the activable ones.
shows_idle :
    write_activable formats machine empty_screen empty_screen.cells (ptr_mem 3 19) ≡ word_of 48 15 0
unfolding write_activable write_pids write_info write_chars blank_line write_car
shows_idle = refl

write_info_titles-sys_info_example :
    Titled 15 0 1 process_table_title
      (sys_info formats machine empty_screen (write_info_titles 15 0 empty_screen.cells))
    × Titled 15 0 2 queue_table_title
        (sys_info formats machine empty_screen (write_info_titles 15 0 empty_screen.cells))
    × Titled 15 0 3 activable_title
        (sys_info formats machine empty_screen (write_info_titles 15 0 empty_screen.cells))
    × Titled 15 0 4 finished_title
        (sys_info formats machine empty_screen (write_info_titles 15 0 empty_screen.cells))
write_info_titles-sys_info_example =
    write_info_titles-sys_info formats machine empty_screen empty_screen.cells
