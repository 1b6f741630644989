-- ===== src/Info.antt =====
-- kernel/info.c: the tables of the kernel in the lines 1 to 4 of the screen. What `sprintf` of the C library makes of a format
-- is an argument; its characters are ASCII, so that a `char` is not negative.
pub mod Lines
pub mod Texts
pub mod Tables
pub mod Shown
pub mod Titles
use Prim.Native.String.{String}
use nebulea_os.Base.{
  ℕ, zero, suc, ◌+◌, Bool, true, false, not, Option, none, some, List, [], ◌∷◌, leb, ◌&&◌, ◌||◌,
  if◌then◌else◌, length,
}
use nebulea_os.Base.Int.{ℤ, pos}
use nebulea_os.Kernel.Types.{Ref, State, Head, Process, Kernel, nb_proc, nb_queue, is_zombie}
use nebulea_os.Screen.Cursor.{nb_columns, Cells, Screen, write_car}

abbrev pub show_zombies : Bool
show_zombies = false

abbrev pub queue_table_title_size : ℕ
queue_table_title_size = 14

abbrev pub process_table_title_size : ℕ
process_table_title_size = 16

abbrev pub activable_title_size : ℕ
activable_title_size = 19

abbrev pub finished_title_size : ℕ
finished_title_size = 17

-- What `sprintf` writes for "%d:%s " and for "%d ".
pub record Formats : Type 0 where
  pub process_text : ℕ → String → List ℕ
  pub number_text : ℕ → List ℕ

-- The state IN_SEM has no case in the source.
unfoldable pub state_to_string : State → String
state_to_string State.elected = "ELECTED"
state_to_string State.activable = "ACTIVABLE"
state_to_string State.asleep = "ASLEEP"
state_to_string State.zombie = "ZOMBIE"
state_to_string State.finished = "FINISHED"
state_to_string State.waiting_pid = "WAITING_PID"
state_to_string State.in_msgqueue = "IN_MSGQUEUE"
state_to_string State.in_sem = ""

-- "Process table : "
abbrev pub process_table_title : List ℕ
process_table_title =
    80 ∷ 114 ∷ 111 ∷ 99 ∷ 101 ∷ 115 ∷ 115 ∷ 32 ∷ 116 ∷ 97 ∷ 98 ∷ 108 ∷ 101 ∷ 32 ∷ 58 ∷ 32 ∷ []

-- "Queue table : "
abbrev pub queue_table_title : List ℕ
queue_table_title = 81 ∷ 117 ∷ 101 ∷ 117 ∷ 101 ∷ 32 ∷ 116 ∷ 97 ∷ 98 ∷ 108 ∷ 101 ∷ 32 ∷ 58 ∷ 32 ∷ []

-- "Activables queue : "
abbrev pub activable_title : List ℕ
activable_title =
    65 ∷ 99 ∷ 116 ∷ 105 ∷ 118 ∷ 97 ∷ 98 ∷ 108 ∷ 101 ∷ 115 ∷ 32 ∷ 113 ∷ 117 ∷ 101 ∷ 117 ∷ 101 ∷ 32
    ∷ 58 ∷ 32 ∷ []

-- "Finished queue : "
abbrev pub finished_title : List ℕ
finished_title =
    70 ∷ 105 ∷ 110 ∷ 105 ∷ 115 ∷ 104 ∷ 101 ∷ 100 ∷ 32 ∷ 113 ∷ 117 ∷ 101 ∷ 117 ∷ 101 ∷ 32 ∷ 58 ∷ 32
    ∷ []

module _ (fg bg : ℕ) where
  -- The loop of `write_info`
  unfoldable pub write_chars : (line col : ℕ) → List ℕ → Cells → Cells
  write_chars line col [] cells = cells
  write_chars line col (c ∷ cs) cells =
      write_chars line (col + 1) cs (write_car line col c fg bg cells)

  unfoldable pub write_info : (line shift : ℕ) → List ℕ → Cells → Cells
  write_info line shift string cells =
      if leb (shift + length string) nb_columns then write_chars line shift string cells else cells

  unfoldable pub write_info_titles : Cells → Cells
  write_info_titles cells = write_info 4 0 finished_title (
      write_info 3 0 activable_title
        (write_info 2 0 queue_table_title (write_info 1 0 process_table_title cells)))

-- The loop that blanks a line from its title on, with the rounds left
unfoldable pub blank_line : (rounds line col : ℕ) → Cells → Cells
blank_line zero line col cells = cells
blank_line (suc n) line col cells = blank_line n line (col + 1) (write_car line col 32 15 0 cells)

module _ (formats : Formats) (k : Kernel) (s : Screen) where
  -- What is shown of a slot of the process table
  abbrev pub process_entry : ℕ → Option (List ℕ)
  process_entry i = elim (k.process_table i) [
    | none ↦ none
    | some r ↦
        if not (is_zombie (k.process_at r).state) || show_zombies
        then some (formats.process_text i (state_to_string (k.process_at r).state))
        else none
  ]

  abbrev pub queue_entry_text : ℕ → Option (List ℕ)
  queue_entry_text i = elim (k.queue_table i) [
    | none ↦ none
    | some q ↦ some (formats.number_text (k.queue_at q).fid)
  ]

  -- The loops over a table, with the rounds left
  unfoldable pub write_entries :
      (ℕ → Option (List ℕ)) → (line rounds i position : ℕ) → Cells → Cells
  write_entries entry line zero i position cells = cells
  write_entries entry line (suc n) i position cells = elim (entry i) [
    | none ↦ write_entries entry line n (i + 1) position cells
    | some text ↦
        write_entries entry line n (i + 1) (position + length text)
          (write_info s.foreground s.background line position text cells)
  ]

  -- The loops over a list of processes
  unfoldable pub write_pids : List Ref → (line position : ℕ) → Cells → Cells
  write_pids [] line position cells = cells
  write_pids (r ∷ rs) line position cells =
      let text : List ℕ = formats.number_text (k.process_at r).pid in
      write_pids rs line (position + length text)
        (write_info s.foreground s.background line position text cells)

  unfoldable pub write_process_table : Cells → Cells
  write_process_table cells =
      write_entries process_entry 1 nb_proc 0 process_table_title_size
        (blank_line nb_columns 1 process_table_title_size cells)

  unfoldable pub write_queue_table : Cells → Cells
  write_queue_table cells =
      write_entries queue_entry_text 2 nb_queue 0 queue_table_title_size
        (blank_line nb_columns 2 queue_table_title_size cells)

  unfoldable pub write_activable : Cells → Cells
  write_activable cells =
      write_pids (k.lists Head.activable_list) 3 activable_title_size
        (blank_line nb_columns 3 activable_title_size cells)

  unfoldable pub write_finished : Cells → Cells
  write_finished cells =
      write_pids (k.lists Head.finished_list) 4 finished_title_size
        (blank_line nb_columns 4 finished_title_size cells)

  unfoldable pub sys_info : Cells → Cells
  sys_info cells = write_finished (write_activable (write_queue_table (write_process_table cells)))
