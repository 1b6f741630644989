-- ===== src/Kernel/Exec.antt =====
-- Kernel code as functions from the kernel's state to an outcome: a value and the new state, or
-- the fault at which the code stops (`panic`, a failed `assert`, a null pointer that is followed).
use nebulea_os.Base.{◌+◌, ◌%◌, ◌^◌, ℕ, Option, none, some, ◌∷◌, update}
use nebulea_os.Base.Int.{ℤ}
use nebulea_os.Kernel.Types.{Ref, Process, MessageQueue, Semaphore, Kernel}

pub data Fault : Type 0 where
  assertion_failed null_pointer panicked : Fault

pub data Outcome (A : Type 0) : Type 0 where
  ok : A → Kernel → Outcome A
  fail : Fault → Outcome A

abbrev pub Exec : Type 0 → Type 0
Exec A = Kernel → Outcome A

abbrev pub and_then : {A B : Type 0} → Outcome A → (A → Exec B) → Outcome B
and_then (ok a k) f = f a k
and_then (fail e) f = fail e

unfoldable pub pure : {A : Type 0} → A → Exec A
pure a k = ok a k

unfoldable pub stop : {A : Type 0} → Fault → Exec A
stop e k = fail e

unfoldable pub gets : {A : Type 0} → (Kernel → A) → Exec A
gets f k = ok (f k) k

-- To follow a pointer that may be null.
unfoldable pub non_null : Option Ref → Exec Ref
unfolding pure stop
non_null none = stop null_pointer
non_null (some r) = pure r

unfoldable pub get_process : Ref → Exec Process
get_process r k = ok (k.process_at r) k

unfoldable pub modify_process : Ref → (Process → Process) → Exec (Unit {0})
modify_process r f k = ok tt (record k { process_at = update k.process_at r (f (k.process_at r)) })

unfoldable pub set_entry : ℕ → Option Ref → Exec (Unit {0})
set_entry pid r k = ok tt (record k { process_table = update k.process_table pid r })

unfoldable pub set_current_pid : ℕ → Exec (Unit {0})
set_current_pid pid k = ok tt (record k { current_pid = pid })

unfoldable pub set_cr3 : ℕ → Exec (Unit {0})
set_cr3 cr3 k = ok tt (record k { cr3 = cr3 })

unfoldable pub set_queue_entry : ℕ → Option Ref → Exec (Unit {0})
set_queue_entry fid q k = ok tt (record k { queue_table = update k.queue_table fid q })

unfoldable pub modify_queue : Ref → (MessageQueue → MessageQueue) → Exec (Unit {0})
modify_queue q f k = ok tt (record k { queue_at = update k.queue_at q (f (k.queue_at q)) })

unfoldable pub set_semaphore_entry : ℕ → Option Ref → Exec (Unit {0})
set_semaphore_entry sem s k = ok tt (record k { semaphore_table = update k.semaphore_table sem s })

unfoldable pub modify_semaphore : Ref → (Semaphore → Semaphore) → Exec (Unit {0})
modify_semaphore s f k =
    ok tt (record k { semaphore_at = update k.semaphore_at s (f (k.semaphore_at s)) })

unfoldable pub count_tick : Exec (Unit {0})
count_tick k = ok tt (record k { time_count = (k.time_count + 1) % 2 ^ 32 })

-- `*address = v` in the address space of the current process.
unfoldable pub store_int : ℕ → ℤ → Exec (Unit {0})
store_int address v k =
    ok tt (record k { memory = update k.memory k.cr3 (update (k.memory k.cr3) address v) })

unfoldable pub mem_free : Ref → Exec (Unit {0})
mem_free r k = ok tt (record k { freed = r ∷ k.freed })

infixl 5 ◌>>=◌ ◌>>◌
-- To open this is to open the actions above.
unfoldable pub ◌>>=◌ : {A B : Type 0} → Exec A → (A → Exec B) → Exec B
unfolding pure stop gets non_null get_process modify_process set_entry set_current_pid set_cr3
    set_queue_entry modify_queue set_semaphore_entry modify_semaphore count_tick store_int mem_free
◌>>=◌ m f k = and_then (m k) f

abbrev pub ◌>>◌ : {B : Type 0} → Exec (Unit {0}) → Exec B → Exec B
m >> n = m >>= λ _. n

-- `process_table[pid]`, about to be followed.
abbrev pub entry : ℕ → Exec Ref
entry pid = do table ← gets (λ k. k.process_table); non_null (table pid)

-- `process_table[current_pid]`, about to be followed.
abbrev pub current : Exec Ref
current = do pid ← gets (λ k. k.current_pid); entry pid

-- What a system call gives back: a value to its caller at once, or the context was switched and
-- the process that is now current goes on where it had been suspended.
pub data Reply : Type 0 where
  value : ℤ → Reply
  switched : Reply

abbrev pub reply : ℤ → Exec Reply
reply v = pure (value v)

-- To go on with what a pointer names, or where it is null.
unfoldable pub on_option : {A B : Type 0} → Option A → Exec B → (A → Exec B) → Exec B
on_option none m f = m
on_option (some a) m f = f a
