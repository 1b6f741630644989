-- ===== src/MessageQueue/Chains.antt =====
-- The functions of kernel/message_queue.c, and the agreement of links and lists.
use nebulea_os.Base.{
  update, ℕ, zero, suc, ◌≡◌, refl, some, List, [], Bool-cases, Option-cases, inl, inr, ◌||◌,
}
use nebulea_os.Base.Int.{ℤ, pos, pos_part, leb_ℤ, ltb_ℤ}
use nebulea_os.Kernel.Types.{Ref, Head, Resume, Kernel, queue_max_size}
use nebulea_os.Kernel.Lists.{set_list}
use nebulea_os.Kernel.Exec.{value, reply, on_option, ◌>>=◌}
use nebulea_os.Kernel.Keeps.{Keeps, After, After-then, Keeps-pure}
use nebulea_os.Kernel.Chained.{Chained, set_list-Chained}
use nebulea_os.Kernel.Frames.{chained_rules, Chained-same}
use nebulea_os.Process.Chains.Scheduling.{
  scheduler-Chained, yield_cpu-Chained, virtual_ctx_sw-Chained,
}
use nebulea_os.MessageQueue.Table.{get_free_fid, new_queue, pcreate, release_all, pdelete, preset}
use nebulea_os.MessageQueue.Transfer.{
  wait_in_queue, hand_over, send, psend, store_message, refill, receive, preceive,
}
use nebulea_os.MessageQueue.Count.{pcount}

release_all-Chained : (h : Head) (n : ℕ) → Keeps Chained (release_all h n)
unfolding release_all
release_all-Chained h zero = search chained_rules
release_all-Chained h (suc n) = search (chained_rules, release_all-Chained h n) depth 16

pub pdelete-Chained : (fid : ℤ) → Keeps Chained (pdelete fid)
unfolding pdelete
pdelete-Chained fid = search (chained_rules, release_all-Chained, yield_cpu-Chained) depth 18

pub preset-Chained : (fid : ℤ) → Keeps Chained (preset fid)
unfolding preset
preset-Chained fid = search (chained_rules, release_all-Chained, yield_cpu-Chained) depth 18

wait_in_queue-Chained : (q : Ref) (r : Resume) → Keeps Chained (wait_in_queue q r)
unfolding wait_in_queue
wait_in_queue-Chained q r = search (chained_rules, scheduler-Chained) depth 16

hand_over-Chained : (q : Ref) (message : ℤ) → Keeps Chained (hand_over q message)
unfolding hand_over
hand_over-Chained q message = search (chained_rules, virtual_ctx_sw-Chained) depth 30

send-Chained : (q : Ref) (message : ℤ) → Keeps Chained (send q message)
unfolding send
send-Chained q message = search (chained_rules, hand_over-Chained, wait_in_queue-Chained) depth 20

pub psend-Chained : (fid message : ℤ) → Keeps Chained (psend fid message)
unfolding psend
psend-Chained fid message = search (chained_rules, send-Chained)

pub store_message-Chained : (message : ℕ) (v : ℤ) → Keeps Chained (store_message message v)
unfolding store_message
store_message-Chained message v = search chained_rules

refill-Chained : (q : Ref) → Keeps Chained (refill q)
unfolding refill
refill-Chained q = search (chained_rules, yield_cpu-Chained) depth 26

receive-Chained : (q : Ref) (message : ℕ) → Keeps Chained (receive q message)
unfolding receive
receive-Chained q message =
    search (chained_rules, store_message-Chained, refill-Chained, wait_in_queue-Chained) depth 24

pub preceive-Chained : (fid : ℤ) (message : ℕ) → Keeps Chained (preceive fid message)
unfolding preceive
preceive-Chained fid message = search (chained_rules, receive-Chained)

pub pcount-Chained : (fid : ℤ) (count : ℕ) → Keeps Chained (pcount fid count)
unfolding pcount
pcount-Chained fid count = search (chained_rules, store_message-Chained) depth 14

-- A list that is empty may be initialised; so is that of memory that the allocator hands over.
pub pcreate-Chained :
    (new : Ref) (buffer : List ℤ) (count : ℤ) (k : Kernel)
    → Chained k
    → k.lists (Head.queue_waiters new) ≡ []
    → After Chained (pcreate new buffer count k)
unfolding pcreate on_option ◌>>=◌
pcreate-Chained new buffer count k c empty = elim (Option-cases (get_free_fid k)) [
  | inl full ↦ rw (full, on_option) c
  | inr (fid, free) ↦
      rw (free, on_option)
        (elim (Bool-cases (leb_ℤ count (pos 0) || ltb_ℤ (pos queue_max_size) count)) [
          | inl bad ↦ rw bad c
          | inr good ↦ rw good (
              let k' : Kernel = record k {
                queue_at = update k.queue_at new (new_queue fid (pos_part count) buffer);
                queue_table = update k.queue_table fid (some new);
              } in
              After-then (set_list (Head.queue_waiters new) [] k') (λ _. reply (pos fid))
                (set_list-Chained (Head.queue_waiters new) k' empty (Chained-same k k' refl refl c))
                (λ _. Keeps-pure (value (pos fid))))
        ])
]
