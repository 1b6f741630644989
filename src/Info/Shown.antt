-- ===== src/Info/Shown.antt =====
-- The tables of kernel/info.c on the screen, after `sys_info`.
use nebulea_os.Base.{
  ℕ, zero, suc, ◌+◌, ◌≡◌, ◌∙◌, refl, ap, false, Option, none, some, not, if◌then◌else◌, List, [],
  ◌∷◌, ◌||◌, length, arith, Option-cases, inl, inr,
}
use mathlib.Core.Option
use mathlib.Core.Path.{subst⁻¹}
use nebulea_os.Kernel.Types.{Ref, Head, State, is_zombie, Kernel, nb_proc, nb_queue}
use nebulea_os.Screen.Cursor.{Cells, Screen, ptr_mem}
use nebulea_os.Info.{
  Formats, write_entries, write_pids, process_entry, queue_entry_text, state_to_string,
  show_zombies, write_process_table, write_queue_table, write_activable, write_finished, sys_info,
  process_table_title_size, queue_table_title_size, activable_title_size, finished_title_size,
}
use nebulea_os.Info.Texts.{write_texts}
use nebulea_os.Info.Tables.{entry_texts, pid_texts, table, in_line, Row, table-other, table-Row}

module _ (formats : Formats) (k : Kernel) (s : Screen) where
  write_entries-texts :
      (entry shown : ℕ → Option (List ℕ)) (line rounds i position : ℕ) (cells : Cells)
      → ((j : ℕ) → entry j ≡ shown j)
      → write_entries formats k s entry line rounds i position cells
        ≡ write_texts s.foreground s.background line position (entry_texts shown rounds i) cells
  unfolding write_entries entry_texts
  write_entries-texts entry shown line zero i position cells same = refl
  write_entries-texts entry shown line (suc n) i position cells same =
      elim (Option-cases (shown i)) [
        | inl no_entry ↦
            rw (write_entries, entry_texts, same i, no_entry)
              (write_entries-texts entry shown line n (i + 1) position cells same)
        | inr (t, at) ↦
            rw (write_entries, entry_texts, same i, at)
              (write_entries-texts entry shown line n (i + 1) (position + length t) _ same)
      ]

  write_pids-texts :
      (rs : List Ref) (line position : ℕ) (cells : Cells)
      → write_pids formats k s rs line position cells
        ≡ write_texts s.foreground s.background line position (pid_texts formats k rs) cells
  unfolding write_pids
  write_pids-texts [] line position cells = refl
  write_pids-texts (r ∷ rs) line position cells = write_pids-texts rs line _ _

  -- What is to be shown of a slot: its number and the state of its process, unless that is a zombie.
  abbrev pub shown_state : (slot : ℕ) → State → Option (List ℕ)
  shown_state i State.zombie = none
  shown_state i State.elected = some (formats.process_text i (state_to_string State.elected))
  shown_state i State.activable = some (formats.process_text i (state_to_string State.activable))
  shown_state i State.asleep = some (formats.process_text i (state_to_string State.asleep))
  shown_state i State.finished = some (formats.process_text i (state_to_string State.finished))
  shown_state i State.waiting_pid =
      some (formats.process_text i (state_to_string State.waiting_pid))
  shown_state i State.in_msgqueue =
      some (formats.process_text i (state_to_string State.in_msgqueue))
  shown_state i State.in_sem = some (formats.process_text i (state_to_string State.in_sem))

  abbrev pub shown_slot : ℕ → Option (List ℕ)
  shown_slot i = elim (k.process_table i) [
    | none ↦ none
    | some r ↦ shown_state i (k.process_at r).state
  ]

  abbrev pub shown_queue : ℕ → Option (List ℕ)
  shown_queue i = Option.map (λ q. formats.number_text (k.queue_at q).fid) (k.queue_table i)

  shown_state_lem :
      (i : ℕ) (state : State)
      → (if not (is_zombie state) || show_zombies
          then some (formats.process_text i (state_to_string state))
          else none)
        ≡ shown_state i state
  shown_state_lem i State.elected = refl
  shown_state_lem i State.activable = refl
  shown_state_lem i State.asleep = refl
  shown_state_lem i State.zombie = refl
  shown_state_lem i State.finished = refl
  shown_state_lem i State.waiting_pid = refl
  shown_state_lem i State.in_msgqueue = refl
  shown_state_lem i State.in_sem = refl

  shown_slot_lem : (i : ℕ) → process_entry formats k s i ≡ shown_slot i
  shown_slot_lem i = elim (Option-cases (k.process_table i)) [
    | inl free ↦ rw (process_entry, shown_slot, free) refl
    | inr (r, at) ↦ rw (process_entry, shown_slot, at) (shown_state_lem i (k.process_at r).state)
  ]

  shown_queue_lem : (i : ℕ) → queue_entry_text formats k s i ≡ shown_queue i
  shown_queue_lem i = elim (Option-cases (k.queue_table i)) [
    | inl free ↦ rw (queue_entry_text, shown_queue, Option.map, free) refl
    | inr (q, at) ↦ rw (queue_entry_text, shown_queue, Option.map, at) refl
  ]

  -- The texts of the four tables.
  abbrev pub process_texts : List (List ℕ)
  process_texts = entry_texts shown_slot nb_proc 0

  abbrev pub queue_texts : List (List ℕ)
  queue_texts = entry_texts shown_queue nb_queue 0

  abbrev pub activable_texts : List (List ℕ)
  activable_texts = pid_texts formats k (k.lists Head.activable_list)

  abbrev pub finished_texts : List (List ℕ)
  finished_texts = pid_texts formats k (k.lists Head.finished_list)

  -- Each table in its line, behind its title, and every other word as it was.
  pub record Shown (cells cells' : Cells) : Type 0 where
    pub processes : Row s.foreground s.background 1 process_table_title_size process_texts cells'
    pub queues : Row s.foreground s.background 2 queue_table_title_size queue_texts cells'
    pub activable : Row s.foreground s.background 3 activable_title_size activable_texts cells'
    pub finished : Row s.foreground s.background 4 finished_title_size finished_texts cells'
    pub others :
        (n : ℕ)
        → (in_line 1 process_table_title_size n
            || in_line 2 queue_table_title_size n
            || in_line 3 activable_title_size n
            || in_line 4 finished_title_size n)
          ≡ false
        → cells' n ≡ cells n

  -- `sys_info` as four lines, one after the other.
  abbrev line1 : Cells → Cells
  line1 = table s.foreground s.background 1 process_table_title_size process_texts

  abbrev line2 : Cells → Cells
  line2 = table s.foreground s.background 2 queue_table_title_size queue_texts

  abbrev line3 : Cells → Cells
  line3 = table s.foreground s.background 3 activable_title_size activable_texts

  abbrev line4 : Cells → Cells
  line4 = table s.foreground s.background 4 finished_title_size finished_texts

  write_process_table_line : (cells : Cells) → write_process_table formats k s cells ≡ line1 cells
  unfolding write_process_table
  write_process_table_line cells =
      write_entries-texts (process_entry formats k s) shown_slot 1 nb_proc 0
        process_table_title_size _ shown_slot_lem

  write_queue_table_line : (cells : Cells) → write_queue_table formats k s cells ≡ line2 cells
  unfolding write_queue_table
  write_queue_table_line cells =
      write_entries-texts (queue_entry_text formats k s) shown_queue 2 nb_queue 0
        queue_table_title_size _ shown_queue_lem

  write_activable_line : (cells : Cells) → write_activable formats k s cells ≡ line3 cells
  unfolding write_activable
  write_activable_line cells =
      write_pids-texts (k.lists Head.activable_list) 3 activable_title_size _

  write_finished_line : (cells : Cells) → write_finished formats k s cells ≡ line4 cells
  unfolding write_finished
  write_finished_line cells = write_pids-texts (k.lists Head.finished_list) 4 finished_title_size _

  sys_info-lines :
      (cells : Cells) → sys_info formats k s cells ≡ line4 (line3 (line2 (line1 cells)))
  unfolding sys_info
  sys_info-lines cells =
      ap
        (λ c.
          write_finished formats k s
            (write_activable formats k s (write_queue_table formats k s c)))
        (write_process_table_line cells)
      ∙ ap (λ c. write_finished formats k s (write_activable formats k s c))
          (write_queue_table_line (line1 cells))
      ∙ ap (λ c. write_finished formats k s c) (write_activable_line (line2 (line1 cells)))
      ∙ write_finished_line (line3 (line2 (line1 cells)))

  -- What one line leaves of the others.
  keep2 :
      (cells : Cells) (n : ℕ) → in_line 2 queue_table_title_size n ≡ false → line2 cells n ≡ cells n
  keep2 cells n out =
      table-other s.foreground s.background 2 queue_table_title_size queue_texts cells n
        (omega arith) (omega arith) out

  keep3 :
      (cells : Cells) (n : ℕ) → in_line 3 activable_title_size n ≡ false → line3 cells n ≡ cells n
  keep3 cells n out =
      table-other s.foreground s.background 3 activable_title_size activable_texts cells n
        (omega arith) (omega arith) out

  keep4 :
      (cells : Cells) (n : ℕ) → in_line 4 finished_title_size n ≡ false → line4 cells n ≡ cells n
  keep4 cells n out =
      table-other s.foreground s.background 4 finished_title_size finished_texts cells n
        (omega arith) (omega arith) out

  lines-Shown : (cells : Cells) → Shown cells (line4 (line3 (line2 (line1 cells))))
  lines-Shown cells = record {
    processes = λ col hc hr.
        let n : ℕ = ptr_mem 1 col in
        keep4 (line3 (line2 (line1 cells))) n (ground arith)
        ∙ keep3 (line2 (line1 cells)) n (ground arith)
        ∙ keep2 (line1 cells) n (ground arith)
        ∙ table-Row s.foreground s.background 1 process_table_title_size process_texts cells
            (omega arith) (omega arith) col hc hr;
    queues = λ col hc hr.
        let n : ℕ = ptr_mem 2 col in
        keep4 (line3 (line2 (line1 cells))) n (ground arith)
        ∙ keep3 (line2 (line1 cells)) n (ground arith)
        ∙ table-Row s.foreground s.background 2 queue_table_title_size queue_texts (line1 cells)
            (omega arith) (omega arith) col hc hr;
    activable = λ col hc hr.
        keep4 (line3 (line2 (line1 cells))) (ptr_mem 3 col) (ground arith)
        ∙ table-Row s.foreground s.background 3 activable_title_size activable_texts
            (line2 (line1 cells)) (omega arith) (omega arith) col hc hr;
    finished = λ col hc hr.
        table-Row s.foreground s.background 4 finished_title_size finished_texts
          (line3 (line2 (line1 cells))) (omega arith) (omega arith) col hc hr;
    others = λ n out.
        keep4 (line3 (line2 (line1 cells))) n (ground arith)
        ∙ keep3 (line2 (line1 cells)) n (ground arith)
        ∙ keep2 (line1 cells) n (ground arith)
        ∙ table-other s.foreground s.background 1 process_table_title_size process_texts cells n
            (omega arith) (omega arith) (ground arith);
  }

  -- After sys_info, the lines 1 to 4 of the screen show from behind their titles on, in the
  -- colours of the screen, the processes that are no zombies, the message queues, the activable
  -- processes and the finished ones, in the order of the tables and lists: the texts up to the
  -- first that does not fit in the line, and blanks behind them. No other word changes.
  pub sys_info-Shown : (cells : Cells) → Shown cells (sys_info formats k s cells)
  sys_info-Shown cells = subst⁻¹ (Shown cells) (sys_info-lines cells) (lines-Shown cells)
