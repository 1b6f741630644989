-- ===== src/Process/Table.antt =====
-- The process table of kernel/process.c: free slots and valid pids.
pub mod Free
use nebulea_os.Base.{ℕ, zero, suc, ◌+◌, Bool, true, false, Option, none, some, ltb, if◌then◌else◌}
use nebulea_os.Base.Int.{ℤ, pos, negsuc}
use nebulea_os.Kernel.Types.{Ref, Kernel, nb_proc}

abbrev pub is_some {ℓ} : {A : Type ℓ} → Option A → Bool
is_some none = false
is_some (some _) = true

-- `for (i = ...; i < ...; i++) if (table[i] == NULL) ...; break`, with the rounds left.
unfoldable pub first_free : {A : Type 0} → (ℕ → Option A) → (rounds i : ℕ) → Option ℕ
first_free table zero i = none
first_free table (suc n) i = elim (table i) [ none ↦ some i | some _ ↦ first_free table n (i + 1) ]

-- `__get_free_pid`; `none` is the source's -1.
unfoldable pub get_free_pid : Kernel → Option ℕ
get_free_pid k = first_free k.process_table nb_proc 0

-- `__is_valid_pid`: the process of a pid, if the pid is valid.
unfoldable pub valid_process : ℤ → Kernel → Option Ref
valid_process (negsuc _) k = none
valid_process (pos n) k = if ltb n nb_proc then k.process_table n else none
