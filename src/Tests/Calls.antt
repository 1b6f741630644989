-- ===== src/Tests/Calls.antt =====
-- A system call of a user program, and its heap.
use nebulea_os.Base.{◌+◌, ◌≡◌, none, some, [], arith, if◌then◌else◌}
use nebulea_os.Base.Int.{pos, negsuc}
use nebulea_os.Semaphore.Table.{sreset}
use nebulea_os.Syscall.{Env, syscall}
use nebulea_os.User.{UserCall, user_call}
use nebulea_os.User.Dispatch.{syscall-user_call}
use nebulea_os.User.Break.{sbrk, InHeap, grants, sbrk-grants}

abbrev env : Env
env = record { symbols_table = []; text_at = λ a. ""; new = 500; cr3 = 9; buffer = [] }

-- The second argument is negative.
abbrev call : UserCall
call = UserCall.asks_sreset (pos 1) (negsuc 4)

syscall-user_call_example :
    syscall env (user_call call).0 (user_call call).1 ≡ sreset (pos 1) (negsuc 4)
syscall-user_call_example =
    syscall-user_call env call ((omega arith, omega arith), (omega arith, omega arith))

sbrk-grants_example :
    (sbrk 0x4001000 (pos 256) 0x4001100 ≡ (
      if grants 0x4001000 (pos 256) 0x4001100
      then (some 0x4001100, 0x4001100 + 256)
      else (none, 0x4001100)))
    × InHeap 0x4001000 (sbrk 0x4001000 (pos 256) 0x4001100).1
sbrk-grants_example =
    sbrk-grants 0x4001000 (pos 256) 0x4001100 (omega arith) (omega arith) (omega arith)
      (record { above = omega arith; below = omega arith })
