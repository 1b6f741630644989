-- ===== src/MessageQueue/Rendezvous.antt =====
-- `psend` of kernel/message_queue.c to an empty queue at which a process waits in `preceive`, and
-- the end of that call of `preceive`, to which the context switch returns.
use nebulea_os.Base.{
  ℕ, ◌-◌, ◌≡◌, refl, ◌∙◌, true, false, none, some, ◌==◌, is_empty, update, arith, if◌then◌else◌,
  Bool-cases, inl, inr, get_or-set_self,
}
use nebulea_os.Base.Int.{ℤ, pos}
use nebulea_os.Kernel.Types.{Ref, Head, Resume, MessageQueue, Kernel}
use nebulea_os.Kernel.Exec.{◌>>=◌, on_option}
use nebulea_os.Kernel.Lists.{queue_add, queue_out, link_into, unlink_top}
use nebulea_os.Kernel.Ends.{Ends, Ends-mono}
use nebulea_os.Queue.{top}
use nebulea_os.Process.Scheduler.{virtual_ctx_sw}
use nebulea_os.MessageQueue.Table.{find_queue}
use nebulea_os.MessageQueue.Ring.{push_message, step_tail, next_message}
use nebulea_os.MessageQueue.Ring.Contents.{IsRing}
use nebulea_os.MessageQueue.Transfer.{psend, send, hand_over, store_message}
use nebulea_os.Resume.{resume_current, resume_at, end_receive}

-- The processes of a rendezvous: `me` sends, and `new` is the first in the list of the queue.
pub record Meets (q me new : Ref) (address : ℕ) (k : Kernel) : Type 0 where
  pub here : k.process_table k.current_pid ≡ some me
  pub free : (k.process_at me).link ≡ none
  pub empty : (k.queue_at q).nb_msg ≡ 0
  pub ring : IsRing (k.queue_at q)
  pub first : top (k.lists (Head.queue_waiters q)) ≡ some new
  pub some_wait : is_empty (k.lists (Head.queue_waiters q)) ≡ false
  pub apart : (me == new) ≡ false
  pub in_table : k.process_table (k.process_at new).pid ≡ some new
  pub receives : (k.process_at new).resume ≡ Resume.receiving new q address
  pub goes_on : (k.process_at new).skip_message ≡ false

-- The end of `preceive` by the current process.
resume_current-receives :
    (k : Kernel) (new q : Ref) (address : ℕ)
    → k.process_table k.current_pid ≡ some new
    → (k.process_at new).resume ≡ Resume.receiving new q address
    → (k.process_at new).skip_message ≡ false
    → Ends
        (λ v k'.
          (v ≡ some (pos 0))
          × (k'.current_pid ≡ k.current_pid)
          × ((k'.queue_at q).nb_msg ≡ (k.queue_at q).nb_msg - 1)
          × (k'.memory ≡ (
              if address == 0
              then k.memory
              else update k.memory k.cr3
                  (update (k.memory k.cr3) address (next_message (k.queue_at q))))))
        (resume_current k)
unfolding resume_current resume_at end_receive store_message step_tail ◌>>=◌
resume_current-receives k new q address here receives goes_on =
    rw (here, receives, goes_on)
      (elim (Bool-cases (address == 0)) [
        | inl null ↦ rw null (refl, refl, ground arith, refl)
        | inr there ↦ rw there (refl, refl, ground arith, refl)
      ])

-- In an empty buffer the message that is written is the one that is read.
next_message-push_message :
    (m : ℤ) (q : MessageQueue) → IsRing q → q.nb_msg ≡ 0 → next_message (push_message m q) ≡ m
unfolding push_message
next_message-push_message m q ring empty =
    let same : q.head ≡ q.tail = ground (arith, ring.apart, ring.in_tail) in
    rw same (get_or-set_self q.buffer q.tail m (pos 0) (ground (arith, ring.whole, ring.in_tail)))

nb_msg-push_message : (m : ℤ) (q : MessageQueue) → q.nb_msg ≡ 0 → (push_message m q).nb_msg - 1 ≡ 0
unfolding push_message
nb_msg-push_message m q e = omega (arith, e)

-- psend to a valid, empty message queue at which a process waits in preceive, the first in the
-- list of the queue and another than the sender: no fault occurs, the context is switched to the
-- receiver, whose preceive returns 0 with exactly that message stored in its address space,
-- unless its address is null, and the queue is empty again.
pub psend-Meets :
    (fid message : ℤ) (k : Kernel) (q me new : Ref) (address : ℕ)
    → find_queue fid k ≡ some q
    → Meets q me new address k
    → Ends
        (λ v k'.
          (v ≡ some (pos 0))
          × (k'.current_pid ≡ (k.process_at new).pid)
          × ((k'.queue_at q).nb_msg ≡ 0)
          × (k'.memory ≡ (
              if address == 0
              then k.memory
              else update k.memory
                  (k.process_at new).cr3
                  (update (k.memory (k.process_at new).cr3) address message))))
        ((psend fid message >>= λ _. resume_current) k)
unfolding psend send hand_over virtual_ctx_sw queue_out unlink_top queue_add link_into on_option
    ◌>>=◌
psend-Meets fid message k q me new address found meets =
    let same_me : (me == me) ≡ true = ground arith in
    let same_new : (new == new) ≡ true = ground arith in
    let same_q : (q == q) ≡ true = ground arith in
    let empty : ((k.queue_at q).nb_msg == 0) ≡ true = ground (arith, meets.empty) in
    let ne : (new == me) ≡ false = ground (arith, meets.apart) in
    rw (found, meets.here, empty, meets.some_wait)
      (rw (meets.first, on_option)
        (rw (meets.here) (
          rw (same_me, ne, meets.free, on_option)
            (Ends-mono _ _ (resume_current _)
              (resume_current-receives _ new q address (rw (same_new, meets.apart) meets.in_table)
                (rw (same_new, meets.apart) meets.receives)
                (rw (same_new, meets.apart) meets.goes_on))
              (λ v k' (e, p, n, mem). (
                e,
                p ∙ rw (same_new, meets.apart) refl,
                n ∙ rw same_q (nb_msg-push_message message (k.queue_at q) meets.empty),
                mem
                    ∙ rw (same_q, same_new, meets.apart)
                        (rw
                          (next_message-push_message message (k.queue_at q) meets.ring meets.empty)
                          refl),
              ))))))
