-- ===== src/Process/Start.antt =====
-- `start` of kernel/process.c. What the linker's table of programs, the allocator and the mapping
-- of memory give is an argument: the names, the address of the new structure, its page directory.
use Prim.Native.String.{String}
use text.Mathlib.Text.{◌==◌ as str_eq}
use nebulea_os.Base.{ℕ, true, false, none, some, List, [], ◌∷◌, ltb, if◌then◌else◌}
use nebulea_os.Base.Int.{ℤ, pos, minus_one, ltb_ℤ}
use nebulea_os.Kernel.Types.{Ref, State, Head, Resume, Process, max_prio}
use nebulea_os.Kernel.Exec.{
  set_current_pid, on_option, Exec, ◌>>=◌, ◌>>◌, pure, stop, panicked, gets, current, get_process,
  modify_process, set_entry, mem_free, Reply, switched, reply,
}
use nebulea_os.Kernel.Lists.{queue_add}
use nebulea_os.Queue.{insert}
use nebulea_os.Process.Table.{get_free_pid}
use nebulea_os.Process.Scheduler.{set_state, virtual_ctx_sw}

-- `get_symbol_from_name`, for the test whether there is a program of that name.
unfoldable pub get_symbol_from_name : List String → String → Exec (Unit {0})
get_symbol_from_name [] name = stop panicked
get_symbol_from_name (s ∷ ss) name = elim (str_eq s name) [
  | true ↦ pure tt
  | false ↦ get_symbol_from_name ss name
]

-- The fields of a structure that `mem_alloc` hands over are zero but for those written here.
abbrev pub new_process : (pid : ℕ) → (prio : ℤ) → (cr3 father arg : ℕ) → Process
new_process pid prio cr3 father arg = record {
  pid = pid;
  state = State.elected;
  priority = prio;
  wakeup_date = 0;
  link = none;
  father_pid = some father;
  children = [];
  waited_pid = 0;
  message = pos 0;
  skip_message = false;
  waited_sem = 0;
  retval = pos 0;
  cr3 = cr3;
  arg = arg;
  resume = Resume.user_start;
}

abbrev pub add_child : ℕ → Process → Process
add_child pid p = record p {
  children = insert (λ c. c.priority) (record { pid = pid; priority = pos 1 }) p.children;
}

-- The new process is elected at once if its priority is above that of the current one.
unfoldable pub launch : Ref → ℕ → Exec Reply
launch new pid = do
  me ← current
  p ← get_process new
  old ← get_process me
  if ltb_ℤ old.priority p.priority
      then (do
        modify_process me (set_state State.activable)
        queue_add me Head.activable_list
        modify_process new (set_state State.elected)
        set_current_pid pid
        virtual_ctx_sw me new (Resume.started new)
        pure switched)
      else (do
        modify_process new (set_state State.activable)
        queue_add new Head.activable_list
        modify_process new (λ p. record p { skip_message = false })
        reply (pos pid))

-- The new process is noted as a child of the current one, and launched.
unfoldable pub adopt : Ref → ℕ → Exec Reply
adopt new pid = do me ← current; modify_process me (add_child pid); launch new pid

-- `start` where a slot of the table is free and the priority is allowed.
unfoldable pub create : Ref → (cr3 pid : ℕ) → ℤ → (arg : ℕ) → Exec Reply
create new cr3 pid prio arg = do
  father ← gets (λ k. k.current_pid)
  set_entry pid (some new)
  modify_process new (λ _. new_process pid prio cr3 father arg)
  adopt new pid

unfoldable pub start :
    List String → Ref → (cr3 : ℕ) → String → (ssize : ℕ) → ℤ → (arg : ℕ) → Exec Reply
start symbols_table new cr3 name ssize prio arg =
    if ltb 0x10000000 ssize then reply minus_one else (do
      get_symbol_from_name symbols_table name
      slot ← gets get_free_pid
      on_option slot (mem_free new >> reply minus_one) (λ pid.
          if ltb_ℤ (pos max_prio) prio
          then (mem_free new >> reply minus_one)
          else create new cr3 pid prio arg))
