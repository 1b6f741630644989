-- ===== src/MessageQueue/Ring.antt =====
-- The circular buffer of a message queue: what `psend` and `preceive` of kernel/message_queue.c do
-- to `buffer`, `head`, `tail` and `nb_msg`.
pub mod Contents
use nebulea_os.Base.{
  ℕ, ◌+◌, ◌-◌, Option, none, some, List, ltb, ◌==◌, ◌&&◌, ◌||◌, if◌then◌else◌, is_empty, length,
  get_or, set, update, [],
}
use nebulea_os.Base.Int.{ℤ, pos, negsuc, minus_one, sub_ℕ, leb_ℤ, ltb_ℤ, pos_part}
use nebulea_os.Kernel.Types.{
  Ref, State, Head, Resume, Process, MessageQueue, Kernel, nb_queue, queue_max_size,
}
use nebulea_os.Kernel.Exec.{
  Exec, ok, ◌>>=◌, ◌>>◌, pure, gets, non_null, entry, current, get_process, modify_process,
  modify_queue, store_int, mem_free, Reply, switched, reply,
}
use nebulea_os.Kernel.Lists.{set_list, queue_add, queue_out}
use nebulea_os.Process.Table.{first_free}
use nebulea_os.Process.Scheduler.{set_state, virtual_ctx_sw, scheduler, yield_cpu}

-- `i + 1 > capacity - 1 ? 0 : i + 1`
abbrev pub next_index : ℕ → ℕ → ℕ
next_index i capacity = if ltb (capacity - 1) (i + 1) then 0 else i + 1

-- A message is written at `head`.
unfoldable pub push_message : ℤ → MessageQueue → MessageQueue
push_message message q = record q {
  buffer = set q.buffer q.head message;
  head = next_index q.head q.capacity;
  nb_msg = q.nb_msg + 1;
}

-- The message at `tail`, and the step of `tail` past it.
abbrev pub next_message : MessageQueue → ℤ
next_message q = get_or q.buffer q.tail (pos 0)

unfoldable pub step_tail : MessageQueue → MessageQueue
step_tail q = record q { tail = next_index q.tail q.capacity }

-- The message of a waiting sender takes the place that became free in a full buffer.
unfoldable pub refill_message : ℤ → MessageQueue → MessageQueue
refill_message message q = record q {
  buffer = set q.buffer q.head message;
  head = next_index q.head q.capacity;
}
