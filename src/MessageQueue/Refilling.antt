-- ===== src/MessageQueue/Refilling.antt =====
-- `preceive` of kernel/message_queue.c from a full queue at which a process waits in `psend`.
use nebulea_os.Base.{
  ℕ, ◌-◌, ◌<◌, ◌≡◌, ◌≢◌, refl, ◌∙◌, ap, List, true, false, none, some, [], ◌∷◌, ◌++◌, ◌==◌, ltb,
  is_empty, update, arith, if◌then◌else◌, Bool-cases, inl, inr,
}
use nebulea_os.Base.Int.{ℤ, pos}
use nebulea_os.Kernel.Types.{Ref, Head, State, Resume, Kernel}
use nebulea_os.Kernel.Exec.{◌>>=◌, on_option, non_null, modify_process, modify_queue, switched}
use nebulea_os.Kernel.Lists.{queue_add, queue_out, priority_of}
use nebulea_os.Kernel.Keeps.{After, at}
use nebulea_os.Kernel.Ends.{Ends, Ends-then, Ends-mono}
use nebulea_os.Kernel.Frames.{Chained-same}
use nebulea_os.Kernel.Chained.{
  Chained, queue_add-Chained, queue_out-Chained, modify_process-Chained,
}
use nebulea_os.Kernel.Steps.{with_process, added, removed_top, queue_add-ok, queue_out-ok}
use nebulea_os.Queue.{top, without_top}
use nebulea_os.Queue.Counts.{count-insert, count-top}
use nebulea_os.Process.Scheduler.{set_state, yield_cpu}
use nebulea_os.Process.Scheduler.Electing.{Scheduled}
use nebulea_os.Process.Scheduler.Calling.{
  Runs, StillMayRun, yielding, yield_cpu-Scheduled, Scheduled-StillMayRun,
}
use nebulea_os.MessageQueue.Table.{find_queue}
use nebulea_os.MessageQueue.Ring.{next_message, step_tail, refill_message, push_message}
use nebulea_os.MessageQueue.Ring.Contents.{
  IsRing, messages, pop_message, push_message-IsRing, messages-push_message, pop_message-IsRing,
  messages-pop_message, refill_message-push_message,
}
use nebulea_os.MessageQueue.Transfer.{store_message, refill, receive, preceive}

-- The state in which `refill` yields: the sender is out of the list of the queue, with its message
-- in the buffer, and may run.
abbrev taken_out : (q p : Ref) → Kernel → Kernel
taken_out q p k =
    let k1 : Kernel = removed_top p (Head.queue_waiters q) k in
    let k2 : Kernel = record k1 {
      queue_at = update k1.queue_at q (refill_message (k1.process_at p).message (k1.queue_at q));
    } in
    with_process p (set_state State.activable (k2.process_at p)) k2

abbrev pub refilled : (q p : Ref) → Kernel → Kernel
refilled q p k = added p Head.activable_list (taken_out q p k)

waits-apart :
    (q p me : Ref) (k : Kernel) → Runs me k → top (k.lists (Head.queue_waiters q)) ≡ some p → p ≢ me
waits-apart q p me k runs first e = ground (
  arith,
  count-top (k.lists (Head.queue_waiters q)) p first,
  runs.chained.counted p (Head.queue_waiters q),
  runs.free,
  e,
)

refilled-Chained :
    (q p me : Ref) (k : Kernel)
    → Runs me k
    → top (k.lists (Head.queue_waiters q)) ≡ some p
    → Chained (refilled q p k)
unfolding modify_process
refilled-Chained q p me k runs first =
    let k1 : Kernel = removed_top p (Head.queue_waiters q) k in
    let k2 : Kernel = record k1 {
      queue_at = update k1.queue_at q (refill_message (k1.process_at p).message (k1.queue_at q));
    } in
    let out : After Chained (queue_out (Head.queue_waiters q) k) =
      at (queue_out-Chained (Head.queue_waiters q)) k runs.chained in
    let c1 : Chained k1 = rw (queue_out-ok p (Head.queue_waiters q) k first) at out in
    let c3 : Chained (taken_out q p k) =
      at (modify_process-Chained p (set_state State.activable) (λ x. (refl, refl))) k2
        (Chained-same k1 k2 refl refl c1) in
    let free : ((taken_out q p k).process_at p).link ≡ none = ground arith in
    let add : After Chained (queue_add p Head.activable_list (taken_out q p k)) =
      at (queue_add-Chained p Head.activable_list) (taken_out q p k) c3 in
    rw (queue_add-ok p Head.activable_list (taken_out q p k) free) at add

refilled-Runs :
    (q p me : Ref) (k : Kernel)
    → Runs me k
    → top (k.lists (Head.queue_waiters q)) ≡ some p
    → Runs me (refilled q p k)
refilled-Runs q p me k runs first =
    let apart : p ≢ me = waits-apart q p me k runs first in
    record {
      chained = refilled-Chained q p me k runs first;
      sleepers = λ r e. ground (arith, runs.sleepers r);
      none_finished = λ r m. ground (arith, runs.none_finished r);
      here = runs.here;
      free = ground (arith, apart, runs.free);
    }

-- `refill` by the process `me`, with the first sender `p`.
pub refill-Scheduled :
    (q p me : Ref) (k : Kernel)
    → Runs me k
    → top (k.lists (Head.queue_waiters q)) ≡ some p
    → Ends
        (λ r k'.
          (r ≡ switched)
          × ((new : Ref) × Scheduled
                (Resume.returning (pos 0))
                me
                (yielding me (refilled q p k))
                new
                k'
              × StillMayRun me new k'))
        (refill q k)
unfolding refill on_option non_null modify_queue modify_process ◌>>=◌
refill-Scheduled q p me k runs first =
    let free : ((taken_out q p k).process_at p).link ≡ none = ground arith in
    rw (queue_out-ok p (Head.queue_waiters q) k first, on_option)
      (rw (queue_add-ok p Head.activable_list (taken_out q p k) free) (
        Ends-then _ _ (yield_cpu (Resume.returning (pos 0)) (refilled q p k)) _
          (yield_cpu-Scheduled (Resume.returning (pos 0)) me (refilled q p k)
            (refilled-Runs q p me k runs first))
          (λ u k' s. (refl, s))))

-- What such a `preceive` by `me` does: the oldest message is stored at the address, unless that is
-- null, that of the sender `p` comes behind the others, and both processes may run or run.
pub record Refilled (q p me : Ref) (address : ℕ) (k : Kernel) (new : Ref) (k' : Kernel)
    : Type 0 where
  pub message : ℤ
  pub others : List ℤ
  pub before : messages (k.queue_at q) ≡ message ∷ others
  pub behind : messages (k'.queue_at q) ≡ others ++ (k.process_at p).message ∷ []
  pub still_ring : IsRing (k'.queue_at q)
  pub stored : k'.memory ≡ (
      if address == 0
      then k.memory
      else update k.memory k.cr3 (update (k.memory k.cr3) address message))
  pub other_queues : (q' : Ref) → (q == q') ≡ false → k'.queue_at q' ≡ k.queue_at q'
  pub left : k'.lists (Head.queue_waiters q) ≡ without_top (k.lists (Head.queue_waiters q))
  pub running : k'.current_pid ≡ (k.process_at new).pid
  pub receiver : StillMayRun me new k'
  pub sender : StillMayRun p new k'

top-is_empty : (l : List Ref) (p : Ref) → top l ≡ some p → is_empty l ≡ false
unfolding top
top-is_empty [] p e = cc
top-is_empty (x ∷ xs) p e = refl

refilled-sender :
    (q p me new : Ref) (k k' : Kernel)
    → Scheduled (Resume.returning (pos 0)) me (yielding me (refilled q p k)) new k'
    → StillMayRun p new k'
refilled-sender q p me new k k' s =
    let k4 : Kernel = refilled q p k in
    let k5 : Kernel = with_process me (set_state State.activable (k4.process_at me)) k4 in
    Scheduled-StillMayRun (Resume.returning (pos 0)) me p new (yielding me k4) k' (ground arith)
      (ground (
        arith,
        count-insert (priority_of (taken_out q p k)) p (k.lists Head.activable_list) p,
        count-insert (priority_of k5) me (k4.lists Head.activable_list) p,
      ))
      s

-- The state in which `receive` calls `refill`.
abbrev read_off : (q : Ref) → (ℕ → ℕ → ℤ) → Kernel → Kernel
read_off q memory k = record k {
  memory = memory;
  queue_at = update k.queue_at q (step_tail (k.queue_at q));
}

read_off-Runs :
    (q me : Ref) (memory : ℕ → ℕ → ℤ) (k : Kernel) → Runs me k → Runs me (read_off q memory k)
read_off-Runs q me memory k runs = record {
  chained = Chained-same k (read_off q memory k) refl refl runs.chained;
  sleepers = runs.sleepers;
  none_finished = runs.none_finished;
  here = runs.here;
  free = runs.free;
}

refill-Refilled :
    (q p me : Ref) (address : ℕ) (memory : ℕ → ℕ → ℤ) (k : Kernel)
    → Runs me k
    → IsRing (k.queue_at q)
    → (k.queue_at q).nb_msg ≡ (k.queue_at q).capacity
    → top (k.lists (Head.queue_waiters q)) ≡ some p
    → memory ≡ (
        if address == 0
        then k.memory
        else update k.memory k.cr3 (update (k.memory k.cr3) address (next_message (k.queue_at q))))
    → Ends
        (λ r k'. (r ≡ switched) × ((new : Ref) × Refilled q p me address k new k'))
        (refill q (read_off q memory k))
unfolding step_tail
refill-Refilled q p me address memory k runs ring full first stored =
    let k0 : Kernel = read_off q memory k in
    let m : ℤ = (k.process_at p).message in
    let some_left : 0 < (k.queue_at q).nb_msg = omega (arith, ring.some_room) in
    let room : (k.queue_at q).nb_msg - 1 < (k.queue_at q).capacity =
      omega (arith, ring.some_room) in
    let popped : IsRing (pop_message (k.queue_at q)) =
      pop_message-IsRing (k.queue_at q) ring some_left in
    Ends-mono _ _ (refill q k0)
      (refill-Scheduled q p me k0 (read_off-Runs q me memory k runs) first)
      (λ r k' (e, (new, s, me_runs)).
        let now : k'.queue_at q ≡ push_message m (pop_message (k.queue_at q)) =
          ap (λ f. f q) s.queues
          ∙ ground arith
          ∙ refill_message-push_message m (k.queue_at q) some_left in
        (
          e,
          (
            new,
            record {
              message = next_message (k.queue_at q);
              others = messages (pop_message (k.queue_at q));
              before = messages-pop_message (k.queue_at q) some_left;
              behind =
                  ap messages now
                  ∙ messages-push_message m (pop_message (k.queue_at q)) popped room;
              still_ring = rw now (push_message-IsRing m (pop_message (k.queue_at q)) popped room);
              stored = s.memory ∙ stored;
              other_queues = λ q' other. ap (λ f. f q') s.queues ∙ rw other refl;
              left = s.lists (Head.queue_waiters q) refl refl ∙ ground arith;
              running = s.pid ∙ ground arith;
              receiver = me_runs;
              sender = refilled-sender q p me new k0 k' s;
            },
          ),
        ))

-- Where links and lists agree, no sleeping process is in a list, no finished one has the current
-- pid, the current process is in no list and a valid message queue is full, with a process in its
-- list: preceive does not fault and calls the scheduler; the oldest message is stored at the
-- address, unless that is null, the message of the process that is first to leave the list comes
-- behind the others, that process leaves the list, and it and the current one are elected or
-- activable and in the list of those. The other queues are unchanged.
pub preceive-Refilled :
    (fid : ℤ) (address : ℕ) (k : Kernel) (q p me : Ref)
    → find_queue fid k ≡ some q
    → Runs me k
    → IsRing (k.queue_at q)
    → (k.queue_at q).nb_msg ≡ (k.queue_at q).capacity
    → top (k.lists (Head.queue_waiters q)) ≡ some p
    → Ends
        (λ r k'. (r ≡ switched) × ((new : Ref) × Refilled q p me address k new k'))
        (preceive fid address k)
unfolding preceive receive store_message modify_queue on_option ◌>>=◌
preceive-Refilled fid address k q p me found runs ring full first =
    let some_left : ltb 0 (k.queue_at q).nb_msg ≡ true = ground (arith, full, ring.some_room) in
    let is_full : ((k.queue_at q).nb_msg == (k.queue_at q).capacity) ≡ true =
      ground (arith, full) in
    let waited : is_empty (k.lists (Head.queue_waiters q)) ≡ false =
      top-is_empty (k.lists (Head.queue_waiters q)) p first in
    elim (Bool-cases (address == 0)) [
      | inl null ↦
          rw (found, some_left, null, is_full, waited)
            (refill-Refilled q p me address k.memory k runs ring full first (rw null refl))
      | inr there ↦
          rw (found, some_left, there, is_full, waited)
            (refill-Refilled q p me address _ k runs ring full first (rw there refl))
    ]
