-- ===== src/Kernel/Lists.antt =====
-- The macros of shared/queue.h on queues of processes: the assertions on the links of the element,
-- and the effect on the list. `link` and `lists` change together.
use nebulea_os.Base.{Bool, true, false, Option, none, some, List, if◌then◌else◌}
use nebulea_os.Base.Int.{ℤ}
use nebulea_os.Kernel.Types.{Ref, Head, same_head, Process, Kernel}
use nebulea_os.Kernel.Exec.{
  Exec, ok, ◌>>=◌, ◌>>◌, pure, stop, gets, assertion_failed, get_process, modify_process, on_option,
}
use nebulea_os.Queue.{insert, top, without_top, delete}

abbrev pub update_list : (Head → List Ref) → Head → List Ref → Head → List Ref
update_list f h l h' = if same_head h h' then l else f h'

unfoldable pub set_list : Head → List Ref → Exec (Unit {0})
set_list h l k = ok tt (record k { lists = update_list k.lists h l })

abbrev pub list_of : Head → Exec (List Ref)
list_of h = gets (λ k. k.lists h)

abbrev pub priority_of : Kernel → Ref → ℤ
priority_of k r = (k.process_at r).priority

-- `queue_initialized`: despite its name, whether the link is in no list.
abbrev pub queue_initialized : Option Head → Bool
queue_initialized none = true
queue_initialized (some h) = false

abbrev pub set_link : Option Head → Process → Process
set_link h p = record p { link = h }

-- The writes of `queue_add`, `queue_del` and `queue_out` to the links.
unfoldable pub link_into : Ref → Head → Exec (Unit {0})
unfolding set_list
link_into r h = do
  prio ← gets priority_of
  l ← list_of h
  set_list h (insert prio r l)
  modify_process r (set_link (some h))

unfoldable pub unlink_from : Ref → Head → Exec (Unit {0})
unfolding set_list
unlink_from r h = do l ← list_of h; set_list h (delete r l); modify_process r (set_link none)

unfoldable pub unlink_top : Head → Ref → Exec (Option Ref)
unfolding set_list
unlink_top h r = do
  l ← list_of h
  set_list h (without_top l)
  modify_process r (set_link none)
  pure (some r)

unfoldable pub queue_add : Ref → Head → Exec (Unit {0})
queue_add r h = do p ← get_process r; on_option p.link (link_into r h) (λ _. stop assertion_failed)

unfoldable pub queue_del : Ref → Exec (Unit {0})
queue_del r = do p ← get_process r; on_option p.link (stop assertion_failed) (unlink_from r)

unfoldable pub queue_out : Head → Exec (Option Ref)
queue_out h = do l ← list_of h; on_option (top l) (pure none) (unlink_top h)
