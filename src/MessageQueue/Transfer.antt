-- ===== src/MessageQueue/Transfer.antt =====
-- `psend` and `preceive` of kernel/message_queue.c. A function that switches the context ends in
-- `switched`; what it does when it is switched back to is in Resume.
use nebulea_os.Base.{ℕ, ◌-◌, not, ltb, ◌==◌, ◌&&◌, if◌then◌else◌, is_empty}
use nebulea_os.Base.Int.{ℤ, pos, minus_one}
use nebulea_os.Kernel.Types.{Ref, State, Head, Resume}
use nebulea_os.Kernel.Exec.{
  set_current_pid, on_option, Exec, ◌>>=◌, ◌>>◌, pure, gets, non_null, current, get_process,
  modify_process, modify_queue, store_int, Reply, switched, reply,
}
use nebulea_os.Kernel.Lists.{queue_add, queue_out}
use nebulea_os.Process.Scheduler.{set_state, virtual_ctx_sw, scheduler, yield_cpu}
use nebulea_os.MessageQueue.Table.{find_queue}
use nebulea_os.MessageQueue.Ring.{push_message, next_message, step_tail, refill_message}

-- The current process waits in the list of a queue.
unfoldable pub wait_in_queue : Ref → Resume → Exec Reply
wait_in_queue q resume = do
  me ← current
  modify_process me (set_state State.in_msgqueue)
  queue_add me (Head.queue_waiters q)
  scheduler resume
  pure switched

-- `psend` to an empty queue where a process waits: the message and the processor go to it.
unfoldable pub hand_over : Ref → ℤ → Exec Reply
hand_over q message = do
  modify_queue q (push_message message)
  out ← queue_out (Head.queue_waiters q)
  me ← current
  modify_process me (set_state State.activable)
  queue_add me Head.activable_list
  new ← non_null out
  modify_process new (set_state State.elected)
  p ← get_process new
  set_current_pid p.pid
  virtual_ctx_sw me new (Resume.returning (pos 0))
  pure switched

-- `psend` to a queue that is valid.
unfoldable pub send : Ref → ℤ → Exec Reply
send ref message = do
  me ← current
  modify_process me (λ p. record p { message = message })
  q ← gets (λ k. k.queue_at ref)
  idle ← gets (λ k. is_empty (k.lists (Head.queue_waiters ref)))
  if q.nb_msg == 0 && not idle
      then hand_over ref message
      else if q.nb_msg == q.capacity
      then wait_in_queue ref (Resume.sending me)
      else (modify_queue ref (push_message message) >> reply (pos 0))

unfoldable pub psend : ℤ → ℤ → Exec Reply
psend fid message = do
  found ← gets (find_queue fid)
  on_option found (reply minus_one) (λ q. send q message)

-- `if (message) *message = ...`
unfoldable pub store_message : ℕ → ℤ → Exec (Unit {0})
store_message message v = if message == 0 then pure tt else store_int message v

-- `preceive` from a full queue where a process waits to send: its message fills the free place.
unfoldable pub refill : Ref → Exec Reply
refill ref = do
  out ← queue_out (Head.queue_waiters ref)
  p ← non_null out
  sender ← get_process p
  modify_queue ref (refill_message sender.message)
  modify_process p (set_state State.activable)
  queue_add p Head.activable_list
  yield_cpu (Resume.returning (pos 0))
  pure switched

-- `preceive` from a queue that is valid.
unfoldable pub receive : Ref → ℕ → Exec Reply
receive ref message = do
  q ← gets (λ k. k.queue_at ref)
  if ltb 0 q.nb_msg
      then (do
        store_message message (next_message q)
        modify_queue ref step_tail
        idle ← gets (λ k. is_empty (k.lists (Head.queue_waiters ref)))
        if q.nb_msg == q.capacity && not idle
            then refill ref
            else (modify_queue ref (λ q. record q { nb_msg = q.nb_msg - 1 }) >> reply (pos 0)))
      else (do me ← current; wait_in_queue ref (Resume.receiving me ref message))

unfoldable pub preceive : ℤ → ℕ → Exec Reply
preceive fid message = do
  found ← gets (find_queue fid)
  on_option found (reply minus_one) (λ q. receive q message)
