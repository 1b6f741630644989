-- ===== src/Process/Children.antt =====
-- The children of a process of kernel/process.c by their pids, and what a list without one of them is.
use nebulea_os.Base.{
  ℕ, ◌≡◌, refl, ap, Bool, true, false, List, [], ◌∷◌, ◌++◌, ◌==◌, ◌||◌, arith, Bool-cases, inl, inr,
}
use nebulea_os.Kernel.Types.{Child}
use nebulea_os.Process.Ending.{without_child}

-- Whether a child of the list has the pid.
abbrev pub has_pid : ℕ → List Child → Bool
has_pid pid [] = false
has_pid pid (c ∷ cs) = (c.pid == pid) || has_pid pid cs

-- The first child of that pid is left out, and the others stay in their order.
pub record LosesChild (pid : ℕ) (cs cs' : List Child) : Type 0 where
  pub before : List Child
  pub lost : Child
  pub behind : List Child
  pub there : cs ≡ before ++ lost ∷ behind
  pub known : lost.pid ≡ pid
  pub first : has_pid pid before ≡ false
  pub rest : cs' ≡ before ++ behind

pub without_child-LosesChild :
    (pid : ℕ) (cs : List Child) → has_pid pid cs ≡ true → LosesChild pid cs (without_child pid cs)
unfolding without_child
without_child-LosesChild pid [] e = cc
without_child-LosesChild pid (c ∷ cs) e = elim (Bool-cases (c.pid == pid)) [
  | inl same ↦ record {
    before = [];
    lost = c;
    behind = cs;
    there = refl;
    known = ground (arith, same);
    first = refl;
    rest = rw same refl;
  }
  | inr other ↦
      let l : LosesChild pid cs (without_child pid cs) =
        without_child-LosesChild pid cs (rw other at e) in
      record {
        before = c ∷ l.before;
        lost = l.lost;
        behind = l.behind;
        there = ap (λ xs. c ∷ xs) l.there;
        known = l.known;
        first = rw other (l.first);
        rest = rw other (ap (λ xs. c ∷ xs) l.rest);
      }
]
