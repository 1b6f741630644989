-- ===== src/Syscall/Chains.antt =====
-- The events of the machine, and the agreement of links and lists.
use nebulea_os.Base.{ℕ}
use nebulea_os.Kernel.Types.{Ref, Resume}
use nebulea_os.Kernel.Keeps.{Keeps}
use nebulea_os.Kernel.Chained.{Chained}
use nebulea_os.Kernel.Frames.{chained_rules}
use nebulea_os.Process.Chains.Scheduling.{scheduler-Chained}
use nebulea_os.Process.Chains.Endings.{finish_zombie-Chained}
use nebulea_os.MessageQueue.Chains.{store_message-Chained}
use nebulea_os.Resume.{end_send, end_receive, end_wait, end_wait_any, resume_at, resume_current}
use nebulea_os.Clock.{tic_pit, wait_clock}

end_send-Chained : (r : Ref) → Keeps Chained (end_send r)
unfolding end_send
end_send-Chained r = search chained_rules depth 12

end_receive-Chained : (r q : Ref) (message : ℕ) → Keeps Chained (end_receive r q message)
unfolding end_receive
end_receive-Chained r q message = search (chained_rules, store_message-Chained) depth 16

end_wait-Chained : (s : Ref) → Keeps Chained (end_wait s)
unfolding end_wait
end_wait-Chained s = search chained_rules depth 12

end_wait_any-Chained : (retvalp : ℕ) → Keeps Chained (end_wait_any retvalp)
unfolding end_wait_any
end_wait_any-Chained retvalp = search (chained_rules, finish_zombie-Chained) depth 14

resume_at-Chained : (r : Resume) → Keeps Chained (resume_at r)
unfolding resume_at
resume_at-Chained Resume.user_start = search chained_rules
resume_at-Chained Resume.preempted = search chained_rules
resume_at-Chained Resume.ended = search chained_rules
resume_at-Chained (Resume.returning v) = search chained_rules
resume_at-Chained (Resume.started r) = search chained_rules depth 10
resume_at-Chained (Resume.sending r) = end_send-Chained r
resume_at-Chained (Resume.receiving r q message) = end_receive-Chained r q message
resume_at-Chained (Resume.semaphore_waiting s) = end_wait-Chained s
resume_at-Chained (Resume.waiting_any retvalp) = end_wait_any-Chained retvalp
resume_at-Chained (Resume.waiting_for pid retvalp) = search (chained_rules, finish_zombie-Chained)

pub resume_current-Chained : Keeps Chained resume_current
unfolding resume_current
resume_current-Chained = search (chained_rules, resume_at-Chained) depth 12

pub tic_pit-Chained : Keeps Chained tic_pit
unfolding tic_pit
tic_pit-Chained = search (chained_rules, scheduler-Chained) depth 20

pub wait_clock-Chained : (wakeup : ℕ) → Keeps Chained (wait_clock wakeup)
unfolding wait_clock
wait_clock-Chained wakeup = search (chained_rules, scheduler-Chained) depth 12
