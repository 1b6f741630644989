-- ===== src/MessageQueue/Delivery.antt =====
-- `psend` and `preceive` of kernel/message_queue.c where the caller need not wait: the messages of
-- the queue as a list, the oldest first.
use nebulea_os.Base.{
  ℕ, ◌-◌, ◌<◌, ◌≡◌, refl, ◌∙◌, not, true, false, some, [], ◌∷◌, ◌++◌, ◌==◌, ◌&&◌, ltb, is_empty,
  update, arith, if◌then◌else◌, Bool-cases, inl, inr,
}
use nebulea_os.Base.Int.{ℤ, pos}
use nebulea_os.Kernel.Types.{Ref, Head, MessageQueue, Kernel}
use nebulea_os.Kernel.Exec.{Reply, value, ◌>>=◌, on_option}
use nebulea_os.Kernel.Ends.{Ends}
use nebulea_os.MessageQueue.Table.{find_queue}
use nebulea_os.MessageQueue.Ring.{push_message, next_message, step_tail}
use nebulea_os.MessageQueue.Ring.Contents.{
  IsRing, messages, pop_message, push_message-IsRing, messages-push_message, pop_message-IsRing,
  messages-pop_message,
}
use nebulea_os.MessageQueue.Transfer.{send, psend, store_message, receive, preceive}

-- What `psend` does where it returns at once.
pub record Sent (q : Ref) (message : ℤ) (k : Kernel) (r : Reply) (k' : Kernel) : Type 0 where
  pub replied : r ≡ value (pos 0)
  pub queued : messages (k'.queue_at q) ≡ messages (k.queue_at q) ++ message ∷ []
  pub still_ring : IsRing (k'.queue_at q)
  pub others : (q' : Ref) → (q == q') ≡ false → k'.queue_at q' ≡ k.queue_at q'

-- What `preceive` does where it returns at once.
pub record Received (q : Ref) (address : ℕ) (k : Kernel) (r : Reply) (k' : Kernel) : Type 0 where
  pub message : ℤ
  pub replied : r ≡ value (pos 0)
  pub oldest : messages (k.queue_at q) ≡ message ∷ messages (k'.queue_at q)
  pub stored : k'.memory ≡ (
      if address == 0
      then k.memory
      else update k.memory k.cr3 (update (k.memory k.cr3) address message))
  pub still_ring : IsRing (k'.queue_at q)
  pub others : (q' : Ref) → (q == q') ≡ false → k'.queue_at q' ≡ k.queue_at q'

here : (f : Ref → MessageQueue) (r : Ref) (x : MessageQueue) → update f r x r ≡ x
here f r x = ground arith

-- On a valid message queue that has room, where no process waits at an empty queue, psend returns
-- 0 at once; the messages of the queue, as a list with the oldest first, are those before and
-- behind them the new one, and the other queues are unchanged.
pub psend-Sent :
    (fid message : ℤ) (k : Kernel) (q me : Ref)
    → find_queue fid k ≡ some q
    → k.process_table k.current_pid ≡ some me
    → IsRing (k.queue_at q)
    → (k.queue_at q).nb_msg < (k.queue_at q).capacity
    → ((k.queue_at q).nb_msg == 0 && not (is_empty (k.lists (Head.queue_waiters q)))) ≡ false
    → Ends (Sent q message k) (psend fid message k)
unfolding psend send on_option ◌>>=◌
psend-Sent fid message k q me found current ring room alone =
    let not_full : ((k.queue_at q).nb_msg == (k.queue_at q).capacity) ≡ false = ground arith in
    rw (found, current, alone, not_full)
      record {
        replied = refl;
        queued =
            rw (here k.queue_at q (push_message message (k.queue_at q)))
              (messages-push_message message (k.queue_at q) ring room);
        still_ring =
            rw (here k.queue_at q (push_message message (k.queue_at q)))
              (push_message-IsRing message (k.queue_at q) ring room);
        others = λ q' e. rw e refl;
      }

popped :
    (k : Kernel) (q : Ref)
    → let queues : Ref → MessageQueue = update k.queue_at q (step_tail (k.queue_at q)) in
      update queues q (record (queues q) { nb_msg = (queues q).nb_msg - 1 }) q
      ≡ pop_message (k.queue_at q)
unfolding step_tail
popped k q =
    here (update k.queue_at q (step_tail (k.queue_at q))) q _
    ∙ rw (here k.queue_at q (step_tail (k.queue_at q))) refl

-- A queue from which the oldest message was taken.
received :
    (q : Ref) (address : ℕ) (k : Kernel) (memory : ℕ → ℕ → ℤ) (queues : Ref → MessageQueue)
    → IsRing (k.queue_at q)
    → 0 < (k.queue_at q).nb_msg
    → memory ≡ (
        if address == 0
        then k.memory
        else update k.memory k.cr3 (update (k.memory k.cr3) address (next_message (k.queue_at q))))
    → queues q ≡ pop_message (k.queue_at q)
    → ((q' : Ref) → (q == q') ≡ false → queues q' ≡ k.queue_at q')
    → Received q address k (value (pos 0)) (record k { memory = memory; queue_at = queues })
received q address k memory queues ring some_left stored taken others = record {
  message = next_message (k.queue_at q);
  replied = refl;
  oldest = rw taken (messages-pop_message (k.queue_at q) some_left);
  stored = stored;
  still_ring = rw taken (pop_message-IsRing (k.queue_at q) ring some_left);
  others = others;
}

-- On a valid message queue that holds a message, where no process waits to send to it while it is
-- full, preceive returns 0 at once; the oldest message is stored at the address, unless that is
-- null, the messages that stay are the others in their order, and the other queues are unchanged.
pub preceive-Received :
    (fid : ℤ) (address : ℕ) (k : Kernel) (q : Ref)
    → find_queue fid k ≡ some q
    → IsRing (k.queue_at q)
    → 0 < (k.queue_at q).nb_msg
    → ((k.queue_at q).nb_msg == (k.queue_at q).capacity
        && not (is_empty (k.lists (Head.queue_waiters q))))
      ≡ false
    → Ends (Received q address k) (preceive fid address k)
unfolding preceive receive store_message step_tail on_option ◌>>=◌
preceive-Received fid address k q found ring some_left alone =
    let full : ltb 0 (k.queue_at q).nb_msg ≡ true = ground arith in
    elim (Bool-cases (address == 0)) [
      | inl null ↦
          rw (found, full, null, alone)
            (received q address k k.memory _ ring some_left (rw null refl) (popped k q)
              (λ q' e. rw e refl))
      | inr there ↦
          rw (found, full, there, alone)
            (received q address k _ _ ring some_left (rw there refl) (popped k q)
              (λ q' e. rw e refl))
    ]
