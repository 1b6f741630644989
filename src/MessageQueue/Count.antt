-- ===== src/MessageQueue/Count.antt =====
-- `pcount` of kernel/message_queue.c.
use nebulea_os.Base.{ℕ, ◌+◌, ◌==◌, if◌then◌else◌, length}
use nebulea_os.Base.Int.{ℤ, pos, minus_one, sub_ℕ}
use nebulea_os.Kernel.Types.{Ref, Head, Kernel}
use nebulea_os.Kernel.Exec.{on_option, Exec, ◌>>=◌, ◌>>◌, gets, Reply, reply}
use nebulea_os.MessageQueue.Table.{find_queue}
use nebulea_os.MessageQueue.Transfer.{store_message}

-- `__nb_waiting_proc`
abbrev pub nb_waiting_proc : Ref → Kernel → ℕ
nb_waiting_proc q k = length (k.lists (Head.queue_waiters q))

-- The number that `pcount` writes.
unfoldable pub count_of : Ref → Kernel → ℤ
count_of q k =
    if (k.queue_at q).nb_msg == 0
    then sub_ℕ 0 (nb_waiting_proc q k)
    else pos (nb_waiting_proc q k + (k.queue_at q).nb_msg)

unfoldable pub pcount : ℤ → ℕ → Exec Reply
pcount fid count = do
  found ← gets (find_queue fid)
  on_option found (reply minus_one)
      (λ q. do n ← gets (count_of q); store_message count n; reply (pos 0))
