-- ===== src/Kernel/Frames.antt =====
-- Actions that touch no link and no list, and the agreement of these.
use nebulea_os.Base.{ℕ, ◌≡◌, refl, Option}
use nebulea_os.Base.Int.{ℤ}
use nebulea_os.Kernel.Types.{Ref, MessageQueue, Semaphore, Kernel}
use nebulea_os.Kernel.Exec.{
  set_entry, set_current_pid, set_cr3, set_queue_entry, modify_queue, set_semaphore_entry,
  modify_semaphore, count_tick, store_int, mem_free,
}
use nebulea_os.Kernel.Keeps.{Keeps, keeps, keeps_rules}
use nebulea_os.Kernel.Chained.{
  Chained, queue_add-Chained, queue_del-Chained, queue_out-Chained, modify_process-Chained,
}

-- Links and lists of two states are the same.
pub Chained-same :
    (k k' : Kernel) → k'.process_at ≡ k.process_at → k'.lists ≡ k.lists → Chained k → Chained k'
Chained-same k k' e e' c = record {
  counted = λ r h. rw (e, e') (c.counted r h);
  sorted = λ h. rw (e, e') (c.sorted h);
}

pub set_entry-Chained : (pid : ℕ) (r : Option Ref) → Keeps Chained (set_entry pid r)
unfolding set_entry
set_entry-Chained pid r = keeps (λ k c. Chained-same k _ refl refl c)

pub set_current_pid-Chained : (pid : ℕ) → Keeps Chained (set_current_pid pid)
unfolding set_current_pid
set_current_pid-Chained pid = keeps (λ k c. Chained-same k _ refl refl c)

pub set_cr3-Chained : (cr3 : ℕ) → Keeps Chained (set_cr3 cr3)
unfolding set_cr3
set_cr3-Chained cr3 = keeps (λ k c. Chained-same k _ refl refl c)

pub set_queue_entry-Chained : (fid : ℕ) (q : Option Ref) → Keeps Chained (set_queue_entry fid q)
unfolding set_queue_entry
set_queue_entry-Chained fid q = keeps (λ k c. Chained-same k _ refl refl c)

pub modify_queue-Chained :
    (q : Ref) (f : MessageQueue → MessageQueue) → Keeps Chained (modify_queue q f)
unfolding modify_queue
modify_queue-Chained q f = keeps (λ k c. Chained-same k _ refl refl c)

pub set_semaphore_entry-Chained :
    (sem : ℕ) (s : Option Ref) → Keeps Chained (set_semaphore_entry sem s)
unfolding set_semaphore_entry
set_semaphore_entry-Chained sem s = keeps (λ k c. Chained-same k _ refl refl c)

pub modify_semaphore-Chained :
    (s : Ref) (f : Semaphore → Semaphore) → Keeps Chained (modify_semaphore s f)
unfolding modify_semaphore
modify_semaphore-Chained s f = keeps (λ k c. Chained-same k _ refl refl c)

pub count_tick-Chained : Keeps Chained count_tick
unfolding count_tick
count_tick-Chained = keeps (λ k c. Chained-same k _ refl refl c)

pub store_int-Chained : (address : ℕ) (v : ℤ) → Keeps Chained (store_int address v)
unfolding store_int
store_int-Chained address v = keeps (λ k c. Chained-same k _ refl refl c)

pub mem_free-Chained : (r : Ref) → Keeps Chained (mem_free r)
unfolding mem_free
mem_free-Chained r = keeps (λ k c. Chained-same k _ refl refl c)

pub ruleset chained_rules = (
  keeps_rules, queue_add-Chained, queue_del-Chained, queue_out-Chained, modify_process-Chained,
  set_entry-Chained, set_current_pid-Chained, set_cr3-Chained, set_queue_entry-Chained,
  modify_queue-Chained, set_semaphore_entry-Chained, modify_semaphore-Chained, count_tick-Chained,
  store_int-Chained, mem_free-Chained, refl,
)
