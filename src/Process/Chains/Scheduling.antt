-- ===== src/Process/Chains/Scheduling.antt =====
-- `__scheduler` of kernel/process.c and what it calls, and the agreement of links and lists.
use nebulea_os.Base.{◌+◌, ℕ, zero, suc, Option, none, some}
use nebulea_os.Kernel.Types.{Ref, Resume, nb_proc}
use nebulea_os.Kernel.Keeps.{Keeps}
use nebulea_os.Kernel.Chained.{Chained}
use nebulea_os.Kernel.Frames.{chained_rules}
use nebulea_os.Process.Scheduler.{
  free_process, free_all, free_finished_process, wakeup, wakeup_from, wakeup_process,
  virtual_ctx_sw, elect, scheduler, yield_cpu,
}

free_process-Chained : (r : Ref) → Keeps Chained (free_process r)
unfolding free_process
free_process-Chained r = search chained_rules

free_all-Chained : (n : ℕ) → Keeps Chained (free_all n)
unfolding free_all
free_all-Chained zero = search chained_rules
free_all-Chained (suc n) = search (chained_rules, free_process-Chained, free_all-Chained n) depth 8

pub free_finished_process-Chained : Keeps Chained free_finished_process
unfolding free_finished_process
free_finished_process-Chained = search (chained_rules, free_all-Chained) depth 10

wakeup-Chained : (r : Option Ref) → Keeps Chained (wakeup r)
unfolding wakeup
wakeup-Chained none = search chained_rules
wakeup-Chained (some r) = search chained_rules depth 10

wakeup_from-Chained : (n i : ℕ) → Keeps Chained (wakeup_from n i)
unfolding wakeup_from
wakeup_from-Chained zero i = search chained_rules
wakeup_from-Chained (suc n) i =
    search (chained_rules, wakeup-Chained, wakeup_from-Chained n (i + 1)) depth 10

pub wakeup_process-Chained : Keeps Chained wakeup_process
unfolding wakeup_process
wakeup_process-Chained = wakeup_from-Chained nb_proc 0

pub virtual_ctx_sw-Chained : (old new : Ref) (r : Resume) → Keeps Chained (virtual_ctx_sw old new r)
unfolding virtual_ctx_sw
virtual_ctx_sw-Chained old new r = search chained_rules depth 10

pub elect-Chained : (r : Resume) → Keeps Chained (elect r)
unfolding elect
elect-Chained r = search (chained_rules, virtual_ctx_sw-Chained) depth 20

pub scheduler-Chained : (r : Resume) → Keeps Chained (scheduler r)
unfolding scheduler
scheduler-Chained r =
    search (chained_rules, free_finished_process-Chained, wakeup_process-Chained, elect-Chained)
      depth 10

pub yield_cpu-Chained : (r : Resume) → Keeps Chained (yield_cpu r)
unfolding yield_cpu
yield_cpu-Chained r = search (chained_rules, scheduler-Chained) depth 14
