-- ===== src/Tests/Families.antt =====
-- A machine with a father that waits, children and zombies, and the theorems on them.
use nebulea_os.Base.{
  ℕ, ◌+◌, ◌≡◌, refl, none, some, List, [], ◌∷◌, ltb, ◌&&◌, arith, if◌then◌else◌, update, inr,
}
use mathlib.Core.Option
use nebulea_os.Base.Int.{pos}
use nebulea_os.Kernel.Types.{Ref, State, Head, Resume, Child, Process, Kernel, user_memory_start}
use nebulea_os.Kernel.Exec.{value}
use nebulea_os.Kernel.Ends.{Ends}
use nebulea_os.Process.Ending.{orphan, kill}
use nebulea_os.Process.Waitpid.{waitpid}
use nebulea_os.Process.Reaping.{CanReap, Reaped, waitpid-Reaped, resume_current-Reaped}
use nebulea_os.Process.Orphans.{Family, Orphaned, LeavesOthers}
use nebulea_os.Process.Orphans.Rounds.{orphan-Orphaned}
use nebulea_os.Process.Fathers.{HasFamily, HasEnded, waiting_father}
use nebulea_os.Process.Killing.{CanWithdraw, kill-HasEnded}
use nebulea_os.Resume.{resume_current}
use nebulea_os.Tests.Machine.{machine, process}

abbrev child : ℕ → Child
child pid = record { pid = pid; priority = pos 1 }

-- The shell, back from its wait for the pid 5.
abbrev shell : Process
shell = record (process 1 128 State.elected none) {
  children = child 2 ∷ child 5 ∷ [];
  waited_pid = 5;
  resume = Resume.waiting_any 0;
}

-- The father that waits, its child and the zombie that this has as its child.
abbrev father : Process
father = record (process 2 7 State.waiting_pid (some Head.waiting_pid_list)) {
  father_pid = some 1;
  children = child 3 ∷ [];
}

abbrev son : Process
son = record (process 3 9 State.activable (some Head.activable_list)) {
  father_pid = some 2;
  children = child 4 ∷ [];
}

abbrev grandson : Process
grandson = record (process 4 9 State.zombie none) { father_pid = some 3; retval = pos 44 }

abbrev second : Process
second = record (process 5 9 State.zombie none) { father_pid = some 1; retval = pos 55 }

abbrev members : Ref → Process
members = update (update (update (update (λ r. shell) 102 father) 103 son) 104 grandson) 105 second

abbrev family_lists : Head → List Ref
family_lists Head.activable_list = 103 ∷ []
family_lists Head.finished_list = []
family_lists Head.waiting_pid_list = 102 ∷ []
family_lists (Head.queue_waiters q) = []
family_lists (Head.semaphore_waiters s) = []

abbrev clan : Kernel
clan = record machine {
  process_at = members;
  process_table = λ pid. if ltb 0 pid && ltb pid 6 then some (100 + pid) else none;
  lists = family_lists;
}

clan-CanReap : CanReap 5 0 101 105 clan
clan-CanReap = record {
  here = refl;
  child = refl;
  free = refl;
  apart = refl;
  listed = refl;
  address = refl;
}

clan-CanReap_stored : CanReap 5 user_memory_start 101 105 clan
clan-CanReap_stored = record {
  here = refl;
  child = refl;
  free = refl;
  apart = refl;
  listed = refl;
  address = refl;
}

waitpid-Reaped_example :
    Ends
      (λ v k'. (v ≡ value (pos 5)) × Reaped 5 user_memory_start 101 105 clan k')
      (waitpid (pos 5) user_memory_start clan)
waitpid-Reaped_example =
    waitpid-Reaped 5 user_memory_start 101 105 clan clan-CanReap_stored (omega arith) refl refl

resume_current-Reaped_example :
    Ends (λ v k'. (v ≡ some (pos 5)) × Reaped 5 0 101 105 clan k') (resume_current clan)
resume_current-Reaped_example =
    resume_current-Reaped 5 0 101 105 clan clan-CanReap (inr (refl, refl))

-- A list of children of which one is a zombie.
abbrev both : List Child
both = child 4 ∷ child 2 ∷ []

clan-Family : Family both clan
clan-Family = (
  (104, record { entry = refl; known = refl; free = λ ended. refl }),
  ((102, record { entry = refl; known = refl; free = λ ended. cc }), tt),
)

orphan-Orphaned_example :
    Ends (λ _ k'. Orphaned both clan k' × LeavesOthers both clan k') (orphan both clan)
orphan-Orphaned_example = orphan-Orphaned both clan (refl, (refl, tt)) clan-Family

clan-HasFamily : HasFamily 3 2 103 clan
clan-HasFamily = record {
  entry = refl;
  known = refl;
  father = refl;
  apart = refl;
  not_self = refl;
  not_father = refl;
  once = (refl, tt);
  family = ((104, record { entry = refl; known = refl; free = λ ended. refl }), tt);
  waits = λ w at. waiter w at;
}
  where
    waiter :
        (w : Ref) → waiting_father 2 clan ≡ some w → (members w).link ≡ some Head.waiting_pid_list
    waiter w at = let here : 102 ≡ w = Option.some-injective 102 w at in rw (← here) refl

clan-CanWithdraw : CanWithdraw 103 clan
clan-CanWithdraw = record {
  elsewhere = λ h on.
      let here : Head.activable_list ≡ h = Option.some-injective Head.activable_list h on in
      rw (← here) refl;
  semaphore = λ waits. (300, refl);
}

kill-HasEnded_example :
    Ends (λ v k'. (v ≡ value (pos 0)) × HasEnded 3 2 103 (pos 0) clan k') (kill (pos 3) clan)
kill-HasEnded_example =
    kill-HasEnded 3 2 103 clan clan-HasFamily clan-CanWithdraw (omega arith) refl refl refl
