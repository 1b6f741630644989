-- ===== src/Process/Chains/Endings.antt =====
-- `exit` and `kill` of kernel/process.c, and the agreement of links and lists.
use nebulea_os.Base.{ℕ, List, [], ◌∷◌, Option, none, some}
use nebulea_os.Base.Int.{ℤ, pos, negsuc}
use nebulea_os.Kernel.Types.{Ref, Resume, Child}
use nebulea_os.Kernel.Keeps.{Keeps}
use nebulea_os.Kernel.Chained.{Chained}
use nebulea_os.Kernel.Frames.{chained_rules}
use nebulea_os.Process.Ending.{
  remove_from_children, store_retval, finish_fatherless, finish_zombie, awake_father, orphan,
  retire, process_end, exit, withdraw, kill_process, kill,
}
use nebulea_os.Process.Chains.Scheduling.{scheduler-Chained}

remove_from_children-Chained :
    (pid : ℕ) (father : Option ℕ) → Keeps Chained (remove_from_children pid father)
unfolding remove_from_children
remove_from_children-Chained pid none = search chained_rules
remove_from_children-Chained pid (some f) = search chained_rules depth 10

store_retval-Chained : (retvalp : ℕ) (pid : ℕ) → Keeps Chained (store_retval retvalp pid)
unfolding store_retval
store_retval-Chained retvalp pid = search chained_rules depth 14

finish_fatherless-Chained : (pid : ℕ) → Keeps Chained (finish_fatherless pid)
unfolding finish_fatherless
finish_fatherless-Chained pid = search chained_rules depth 12

pub finish_zombie-Chained : (pid retvalp : ℕ) → Keeps Chained (finish_zombie pid retvalp)
unfolding finish_zombie
finish_zombie-Chained pid retvalp =
    search
      (chained_rules, store_retval-Chained, remove_from_children-Chained, finish_fatherless-Chained)
      depth 12

awake_father-Chained : (pid : ℕ) → Keeps Chained (awake_father pid)
unfolding awake_father
awake_father-Chained pid = search chained_rules depth 20

orphan-Chained : (cs : List Child) → Keeps Chained (orphan cs)
unfolding orphan
orphan-Chained [] = search chained_rules
orphan-Chained (c ∷ cs) =
    search (chained_rules, finish_fatherless-Chained, orphan-Chained cs) depth 14

retire-Chained : (pid : ℕ) → Keeps Chained (retire pid)
unfolding retire
retire-Chained pid =
    search (chained_rules, finish_fatherless-Chained, awake_father-Chained, orphan-Chained) depth 16

process_end-Chained : (pid : ℕ) (r : Resume) → Keeps Chained (process_end pid r)
unfolding process_end
process_end-Chained pid r = search (chained_rules, retire-Chained, scheduler-Chained) depth 12

pub exit-Chained : (retval : ℤ) → Keeps Chained (exit retval)
unfolding exit
exit-Chained retval = search (chained_rules, process_end-Chained) depth 12

withdraw-Chained : (r : Ref) → Keeps Chained (withdraw r)
unfolding withdraw
withdraw-Chained r = search chained_rules depth 16

kill_process-Chained : (pid : ℕ) (r : Ref) → Keeps Chained (kill_process pid r)
unfolding kill_process
kill_process-Chained pid r = search (chained_rules, withdraw-Chained, process_end-Chained) depth 12

pub kill-Chained : (pid : ℤ) → Keeps Chained (kill pid)
unfolding kill
kill-Chained (negsuc n) = search chained_rules
kill-Chained (pos n) = search (chained_rules, kill_process-Chained) depth 14
