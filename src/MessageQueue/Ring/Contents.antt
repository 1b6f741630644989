-- ===== src/MessageQueue/Ring/Contents.antt =====
-- The messages of the circular buffer of kernel/message_queue.c, in their order.
use nebulea_os.Base.{
  ℕ, zero, suc, ◌+◌, ◌-◌, ◌≤◌, ◌<◌, ◌≡◌, refl, ◌∙◌, List, [], ◌∷◌, ◌++◌, arith, length, get_or, set,
  length-set, get_or-set_self, get_or-set_ne, if◌then◌else◌, ltb,
}
use native.Mathlib.Numerals.{add-one}
use nebulea_os.Base.Int.{ℤ, pos}
use nebulea_os.Kernel.Types.{MessageQueue}
use nebulea_os.MessageQueue.Ring.{next_index, push_message, next_message, step_tail, refill_message}

-- `n` messages from the index `i` on.
pub read : (capacity n i : ℕ) → List ℤ → List ℤ
read capacity zero i buffer = []
read capacity (suc n) i buffer =
    get_or buffer i (pos 0) ∷ read capacity n (next_index i capacity) buffer

-- The index `n` steps behind `i`.
abbrev pub skip : (capacity n i : ℕ) → ℕ
skip capacity n i = if ltb (i + n) capacity then i + n else i + n - capacity

-- The indices lie in the buffer, and `head` is `nb_msg` steps behind `tail`.
pub record IsRing (q : MessageQueue) : Type 0 where
  pub some_room : 0 < q.capacity
  pub small : q.nb_msg ≤ q.capacity
  pub in_head : q.head < q.capacity
  pub in_tail : q.tail < q.capacity
  pub whole : length q.buffer ≡ q.capacity
  pub apart : q.head ≡ skip q.capacity q.nb_msg q.tail

-- The messages that wait, the oldest first.
pub messages : MessageQueue → List ℤ
unfolding read
messages q = read q.capacity q.nb_msg q.tail q.buffer

pub push_message-IsRing :
    (m : ℤ) (q : MessageQueue) → IsRing q → q.nb_msg < q.capacity → IsRing (push_message m q)
unfolding push_message
push_message-IsRing m q r h = record {
  some_room = r.some_room;
  small = ground (arith, r.small);
  in_head = ground (arith, r.in_head);
  in_tail = r.in_tail;
  whole = length-set q.buffer q.head m ∙ r.whole;
  apart = ground (arith, r.apart, r.in_tail, r.small);
}

-- A write at an index that is not read changes nothing.
read-set :
    (capacity n i j : ℕ) (v : ℤ) (buffer : List ℤ)
    → i < capacity
    → j ≡ skip capacity n i
    → n < capacity
    → read capacity n i (set buffer j v) ≡ read capacity n i buffer
unfolding read
read-set capacity zero i j v buffer hi hj hn = refl
read-set capacity (suc n) i j v buffer hi hj hn = ground (
  arith,
  get_or-set_ne buffer j i v (pos 0),
  read-set capacity n (next_index i capacity) j v buffer,
)

-- A message written behind `n` others is read behind them.
read-set_end :
    (capacity n i j : ℕ) (v : ℤ) (buffer : List ℤ)
    → i < capacity
    → n < capacity
    → length buffer ≡ capacity
    → j ≡ skip capacity n i
    → read capacity (suc n) i (set buffer j v) ≡ read capacity n i buffer ++ v ∷ []
unfolding read
read-set_end capacity zero i j v buffer hi hn whole hj =
    ground (arith, get_or-set_self buffer i v (pos 0))
read-set_end capacity (suc n) i j v buffer hi hn whole hj = ground (
  arith,
  get_or-set_ne buffer j i v (pos 0),
  read-set_end capacity n (next_index i capacity) j v buffer,
)

-- A message that is written into a buffer with room comes behind those that wait.
pub messages-push_message :
    (m : ℤ) (q : MessageQueue)
    → IsRing q
    → q.nb_msg < q.capacity
    → messages (push_message m q) ≡ messages q ++ m ∷ []
unfolding messages push_message
messages-push_message m q r h =
    rw add-one
      (read-set_end q.capacity q.nb_msg q.tail q.head m q.buffer r.in_tail h r.whole r.apart)

-- What `preceive` does where nobody waits to send.
abbrev pub pop_message : MessageQueue → MessageQueue
pop_message q = let q' = step_tail q in record q' { nb_msg = q.nb_msg - 1 }

pub pop_message-IsRing : (q : MessageQueue) → IsRing q → 0 < q.nb_msg → IsRing (pop_message q)
unfolding step_tail
pop_message-IsRing q r h = record {
  some_room = r.some_room;
  small = omega (arith, r.small);
  in_head = r.in_head;
  in_tail = ground (arith, r.in_tail);
  whole = r.whole;
  apart = ground (arith, r.apart, r.in_tail, r.small);
}

read_pos :
    (capacity n i : ℕ) (buffer : List ℤ)
    → 0 < n
    → read capacity n i buffer
      ≡ get_or buffer i (pos 0) ∷ read capacity (n - 1) (next_index i capacity) buffer
unfolding read
read_pos capacity zero i buffer h = absurd (omega arith)
read_pos capacity (suc n) i buffer h = let e : suc n - 1 ≡ n = omega arith in rw e

-- The oldest message is taken, and the others stay.
pub messages-pop_message :
    (q : MessageQueue) → 0 < q.nb_msg → messages q ≡ next_message q ∷ messages (pop_message q)
unfolding messages step_tail
messages-pop_message q h = read_pos q.capacity q.nb_msg q.tail q.buffer h

-- On a buffer that holds a message, what preceive does where a sender waits, the step of the
-- reading index and then the write of the sender's message, is to take the oldest message as
-- without a sender and then to write as psend does.
pub refill_message-push_message :
    (m : ℤ) (q : MessageQueue)
    → 0 < q.nb_msg
    → refill_message m (step_tail q) ≡ push_message m (pop_message q)
unfolding refill_message push_message step_tail
refill_message-push_message m q h = ground arith
