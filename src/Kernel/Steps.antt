-- ===== src/Kernel/Steps.antt =====
-- The operations on queues of processes where they do not fault, with the state that they leave.
use nebulea_os.Base.{◌≡◌, none, some, update}
use nebulea_os.Kernel.Types.{Ref, Head, Process, Kernel}
use nebulea_os.Kernel.Exec.{ok, on_option, ◌>>=◌}
use nebulea_os.Kernel.Lists.{
  queue_add, queue_del, queue_out, link_into, unlink_from, unlink_top, update_list, set_link,
  priority_of,
}
use nebulea_os.Queue.{insert, top, without_top, delete}

-- One process written anew.
abbrev pub with_process : Ref → Process → Kernel → Kernel
with_process r p k = record k { process_at = update k.process_at r p }

-- A process in a list, and out of it.
abbrev pub added : Ref → Head → Kernel → Kernel
added r h k = record k {
  lists = update_list k.lists h (insert (priority_of k) r (k.lists h));
  process_at = update k.process_at r (set_link (some h) (k.process_at r));
}

abbrev pub removed_top : Ref → Head → Kernel → Kernel
removed_top r h k = record k {
  lists = update_list k.lists h (without_top (k.lists h));
  process_at = update k.process_at r (set_link none (k.process_at r));
}

abbrev pub removed : Ref → Head → Kernel → Kernel
removed r h k = record k {
  lists = update_list k.lists h (delete r (k.lists h));
  process_at = update k.process_at r (set_link none (k.process_at r));
}

pub queue_add-ok :
    (r : Ref) (h : Head) (k : Kernel)
    → (k.process_at r).link ≡ none
    → queue_add r h k ≡ ok tt (added r h k)
unfolding queue_add link_into on_option ◌>>=◌
queue_add-ok r h k free = rw (free, on_option)

pub queue_del-ok :
    (r : Ref) (h : Head) (k : Kernel)
    → (k.process_at r).link ≡ some h
    → queue_del r k ≡ ok tt (removed r h k)
unfolding queue_del unlink_from on_option ◌>>=◌
queue_del-ok r h k on = rw (on, on_option)

pub queue_out-ok :
    (r : Ref) (h : Head) (k : Kernel)
    → top (k.lists h) ≡ some r
    → queue_out h k ≡ ok (some r) (removed_top r h k)
unfolding queue_out unlink_top on_option ◌>>=◌
queue_out-ok r h k out = rw (out, on_option)
