-- ===== src/MessageQueue/Table.antt =====
-- The table of message queues of kernel/message_queue.c: `pcreate`, `pdelete`, `preset`.
use nebulea_os.Base.{
  ℕ, zero, suc, ◌-◌, true, Option, none, some, List, ltb, ◌||◌, if◌then◌else◌, length, [],
}
use nebulea_os.Base.Int.{ℤ, pos, negsuc, minus_one, leb_ℤ, ltb_ℤ, pos_part}
use nebulea_os.Kernel.Types.{
  Ref, State, Head, Resume, MessageQueue, Kernel, nb_queue, queue_max_size,
}
use nebulea_os.Kernel.Exec.{
  set_queue_entry, on_option, Exec, ◌>>=◌, ◌>>◌, pure, gets, modify_process, modify_queue, mem_free,
  Reply, switched, reply,
}
use nebulea_os.Kernel.Lists.{list_of, set_list, queue_add, queue_out}
use nebulea_os.Process.Table.{first_free}
use nebulea_os.Process.Scheduler.{yield_cpu}

-- `__get_free_fid`; `none` is the source's -1.
unfoldable pub get_free_fid : Kernel → Option ℕ
get_free_fid k = first_free k.queue_table nb_queue 0

-- `fid < 0 || fid > NBQUEUE - 1 || !queue_table[fid]`: the queue of a fid, if the fid is valid.
unfoldable pub find_queue : ℤ → Kernel → Option Ref
find_queue (negsuc _) k = none
find_queue (pos fid) k = if ltb (nb_queue - 1) fid then none else k.queue_table fid

-- A queue without messages, over the memory that `mem_alloc` handed over for its buffer.
abbrev pub new_queue : (fid capacity : ℕ) → List ℤ → MessageQueue
new_queue fid capacity buffer = record {
  fid = fid;
  capacity = capacity;
  nb_msg = 0;
  head = 0;
  tail = 0;
  buffer = buffer;
}

-- `pcreate`, given the address of the new structure and what its buffer holds.
unfoldable pub pcreate : Ref → List ℤ → ℤ → Exec Reply
pcreate new buffer count = do
  slot ← gets get_free_fid
  on_option slot (reply minus_one) (λ fid.
      if leb_ℤ count (pos 0) || ltb_ℤ (pos queue_max_size) count then reply minus_one else (do
        set_queue_entry fid (some new)
        modify_queue new (λ _. new_queue fid (pos_part count) buffer)
        set_list (Head.queue_waiters new) []
        reply (pos fid)))

-- `while (!queue_empty(&...waiting_process))` of `pdelete` and `preset`, with as many rounds as
-- the list has elements: every process that waits becomes activable and is told to give up.
unfoldable pub release_all : Head → ℕ → Exec (Unit {0})
release_all h zero = pure tt
release_all h (suc n) = do
  r ← queue_out h
  on_option r (pure tt) (λ p. do
    modify_process p (λ p. record p { state = State.activable; skip_message = true })
    queue_add p Head.activable_list
    release_all h n)

abbrev pub release_waiters : Head → Exec (Unit {0})
release_waiters h = do l ← list_of h; release_all h (length l)

unfoldable pub pdelete : ℤ → Exec Reply
pdelete fid = do
  found ← gets (find_queue fid)
  on_option found (reply minus_one) (λ q. do
    release_waiters (Head.queue_waiters q)
    set_queue_entry (pos_part fid) none
    mem_free q
    yield_cpu (Resume.returning (pos 0))
    pure switched)

unfoldable pub preset : ℤ → Exec Reply
preset fid = do
  found ← gets (find_queue fid)
  on_option found (reply minus_one) (λ q. do
    release_waiters (Head.queue_waiters q)
    modify_queue q (λ q. record q { nb_msg = 0; head = 0; tail = 0 })
    yield_cpu (Resume.returning (pos 0))
    pure switched)
