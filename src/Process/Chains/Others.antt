-- ===== src/Process/Chains/Others.antt =====
-- `waitpid`, `getprio`, `chprio` and `start` of kernel/process.c, and the agreement of links and
-- lists.
use Prim.Native.String.{String}
use nebulea_os.Base.{
  ◌⊎◌, ltb, Bool-cases, arith, update, Option-cases, inl, inr, ℕ, ◌≡◌, refl, List, [], ◌∷◌, none,
  some,
}
use nebulea_os.Base.Int.{ℤ, ltb_ℤ, pos, negsuc}
use nebulea_os.Kernel.Types.{Ref, Head, Resume, Child, Kernel, max_prio}
use nebulea_os.Kernel.Exec.{ok, fail, panicked, set_entry, on_option, ◌>>=◌}
use nebulea_os.Kernel.Keeps.{Keeps, After, keeps, at, Keeps-on_option, Keeps-stop}
use nebulea_os.Kernel.Chained.{Chained, modify_free-Chained, modify_add-Chained, queue_del-then}
use nebulea_os.Kernel.Frames.{chained_rules, Chained-same}
use nebulea_os.Process.Waitpid.{
  wait_for_child, zombie_child, wait_any, wait_one, dispatch_wait, waitpid,
}
use nebulea_os.Process.Priority.{
  getpid, getprio, set_priority, requeue, with_priority, get_queue_of, chprio,
}
use nebulea_os.Process.Table.{get_free_pid}
use nebulea_os.Process.Start.{new_process, launch, adopt, create, get_symbol_from_name, start}
use nebulea_os.Process.Chains.Scheduling.{
  scheduler-Chained, yield_cpu-Chained, virtual_ctx_sw-Chained,
}
use nebulea_os.Process.Chains.Endings.{finish_zombie-Chained}

wait_for_child-Chained : (r : Resume) → Keeps Chained (wait_for_child r)
unfolding wait_for_child
wait_for_child-Chained r = search (chained_rules, scheduler-Chained) depth 14

zombie_child-Chained : (cs : List Child) → Keeps Chained (zombie_child cs)
unfolding zombie_child
zombie_child-Chained [] = search chained_rules
zombie_child-Chained (c ∷ cs) = search (chained_rules, zombie_child-Chained cs) depth 10

wait_any-Chained : (retvalp : ℕ) → Keeps Chained (wait_any retvalp)
unfolding wait_any
wait_any-Chained retvalp =
    search (chained_rules, zombie_child-Chained, wait_for_child-Chained, finish_zombie-Chained)
      depth 16

wait_one-Chained : (pid retvalp : ℕ) → Keeps Chained (wait_one pid retvalp)
unfolding wait_one
wait_one-Chained pid retvalp =
    search (chained_rules, wait_for_child-Chained, finish_zombie-Chained) depth 16

dispatch_wait-Chained : (pid : ℤ) (retvalp : ℕ) → Keeps Chained (dispatch_wait pid retvalp)
dispatch_wait-Chained (negsuc n) retvalp = wait_any-Chained retvalp
dispatch_wait-Chained (pos n) retvalp = search (chained_rules, wait_one-Chained)

pub waitpid-Chained : (pid : ℤ) (retvalp : ℕ) → Keeps Chained (waitpid pid retvalp)
unfolding waitpid
waitpid-Chained pid retvalp = search (chained_rules, dispatch_wait-Chained)

pub getpid-Chained : Keeps Chained getpid
unfolding getpid
getpid-Chained = search chained_rules

pub getprio-Chained : (pid : ℤ) → Keeps Chained (getprio pid)
unfolding getprio
getprio-Chained pid = search chained_rules depth 10

requeue-Chained : (r : Ref) (newprio : ℤ) (h : Head) → Keeps Chained (requeue r newprio h)
unfolding requeue
requeue-Chained r newprio h = keeps λ k.
    queue_del-then r _ k λ k' c free. modify_add-Chained r (with_priority newprio) h k' c free free

set_priority-Chained : (r : Ref) (newprio : ℤ) → Keeps Chained (set_priority r newprio)
unfolding set_priority ◌>>=◌
set_priority-Chained r newprio = keeps λ k c. elim (Option-cases (k.process_at r).link) [
  | inl free ↦ rw free (modify_free-Chained r (with_priority newprio) k c free free)
  | inr (h, on) ↦ rw on (
      at
        (Keeps-on_option (get_queue_of (k.process_at r).state (k.process_at r).pid k) _ _
          (Keeps-stop _) (requeue-Chained r newprio))
        k c)
]

pub chprio-Chained : (pid newprio : ℤ) → Keeps Chained (chprio pid newprio)
unfolding chprio
chprio-Chained pid newprio =
    search (chained_rules, set_priority-Chained, yield_cpu-Chained) depth 14

launch-Chained : (new : Ref) (pid : ℕ) → Keeps Chained (launch new pid)
unfolding launch
launch-Chained new pid = search (chained_rules, virtual_ctx_sw-Chained) depth 24

adopt-Chained : (new : Ref) (pid : ℕ) → Keeps Chained (adopt new pid)
unfolding adopt
adopt-Chained new pid = search (chained_rules, launch-Chained) depth 12

-- Memory that the allocator hands over is in no list.
abbrev pub IsFresh : Ref → Kernel → Type 0
IsFresh new k = Chained k × ((k.process_at new).link ≡ none)

create-Chained :
    (new : Ref) (cr3 pid : ℕ) (prio : ℤ) (arg : ℕ) (k : Kernel)
    → IsFresh new k
    → After Chained (create new cr3 pid prio arg k)
unfolding create set_entry ◌>>=◌
create-Chained new cr3 pid prio arg k (c, free) =
    let k' : Kernel = record k { process_table = update k.process_table pid (some new) } in
    at (adopt-Chained new pid) _ (
      modify_free-Chained new (λ _. new_process pid prio cr3 k.current_pid arg) k'
        (Chained-same k k' refl refl c) free refl)

get_symbol_from_name-cases :
    (ss : List String) (name : String) (k : Kernel)
    → (get_symbol_from_name ss name k ≡ ok tt k) ⊎ (get_symbol_from_name ss name k ≡ fail panicked)
unfolding get_symbol_from_name ◌>>=◌
get_symbol_from_name-cases [] name k = inr refl
get_symbol_from_name-cases (s ∷ ss) name k = ground (arith, get_symbol_from_name-cases ss name k)

-- `start` of a structure that the allocator handed over.
pub start-Chained :
    (ss : List String) (new : Ref) (cr3 : ℕ) (name : String) (ssize : ℕ) (prio : ℤ) (arg : ℕ)
    (k : Kernel)
    → IsFresh new k
    → After Chained (start ss new cr3 name ssize prio arg k)
unfolding start on_option ◌>>=◌
start-Chained ss new cr3 name ssize prio arg k fresh = elim (Bool-cases (ltb 0x10000000 ssize)) [
  | inl e ↦ rw e fresh.0
  | inr e ↦ rw e (elim (get_symbol_from_name-cases ss name k) [
    | inr bad ↦ rw bad tt
    | inl good ↦ rw good (elim (Option-cases (get_free_pid k)) [
      | inl full ↦ rw (full, on_option) (Chained-same k _ refl refl fresh.0)
      | inr (pid, free) ↦
          rw (free, on_option)
            (elim (Bool-cases (ltb_ℤ (pos max_prio) prio)) [
              | inl big ↦ rw big (Chained-same k _ refl refl fresh.0)
              | inr fits ↦ rw fits (create-Chained new cr3 pid prio arg k fresh)
            ])
    ])
  ])
]
