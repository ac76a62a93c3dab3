-- ===== src/Reaper/Laws.antt =====
-- What a reaped child leaves in the sandbox.
use kata_rust_agent.Base.{
  ℕ, String, false, Option, none, some, [], ◌∷◌, ◌≡◌, refl, ap, ◌∙◌, arith, inl, inr, Bool-cases,
  Option-cases, ℤ, eq_ℤ, eq_ℤ_iff, ◌≢◌,
}
use kata_rust_agent.Base.Dict.{Dict}
use kata_rust_agent.Rustjail.Process.{Process, Processes, get_pid, update_pid}
use kata_rust_agent.Rustjail.Container.{LinuxContainer}
use kata_rust_agent.Base.Exec.{ok, panic}
use kata_rust_agent.Os.{Os}
use kata_rust_agent.Sandbox.Agent.{Agent}
use kata_rust_agent.Sandbox.Quiet.{attempt-Quiet}
use kata_rust_agent.Sandbox.{find_in, find_process}
use kata_rust_agent.Reaper.{
  with_code, exited, record_code, on_found, on_process, reap_child, set_code,
}

pub update_pid-same :
    (pid : ℤ) (old p : Process) (m : Processes)
    → get_pid pid m ≡ some old
    → get_pid pid (update_pid pid p m) ≡ some p
unfolding get_pid update_pid
update_pid-same pid old p [] = λ e. absurd (ground (arith, e))
update_pid-same pid old p ((r, x) ∷ m) = elim (Bool-cases (eq_ℤ r pid)) [
  | inl here ↦ λ e. rw (here) (rw here refl)
  | inr differ ↦ rw differ (λ e. rw differ (update_pid-same pid old p m e))
]

update_pid-other :
    (pid q : ℤ) (p : Process) (m : Processes)
    → eq_ℤ pid q ≡ false
    → get_pid q (update_pid pid p m) ≡ get_pid q m
unfolding get_pid update_pid
update_pid-other pid q p [] other = refl
update_pid-other pid q p ((r, x) ∷ m) other = elim (Bool-cases (eq_ℤ r pid)) [
  | inl here ↦ rw here (
      let off : eq_ℤ r q ≡ false = ap (λ z. eq_ℤ z q) ((eq_ℤ_iff r pid).0 here) ∙ other in
      rw off refl)
  | inr differ ↦ rw differ (elim (Bool-cases (eq_ℤ r q)) [
    | inl f ↦ rw f refl
    | inr f ↦ rw f (update_pid-other pid q p m other)
  ])
]

abbrev pub recode : ℤ → Option (String × Process) → Option (String × Process)
recode code none = none
recode code (some (id, p)) = some (id, with_code code p)

-- The process that the sandbox finds by this pid has the new code, in the same container.
pub set_code-same :
    (pid code : ℤ) (id : String) (p : Process) (m : Dict LinuxContainer)
    → find_in pid m ≡ some (id, p)
    → find_in pid (set_code pid code m) ≡ some (id, with_code code p)
unfolding find_in set_code
set_code-same pid code id p [] = λ e. absurd (ground (arith, e))
set_code-same pid code id p ((j, c) ∷ m) = elim (Option-cases (get_pid pid c.processes)) [
  | inl gone ↦
      rw (gone, find_in, set_code) (λ e. rw (gone, find_in) (set_code-same pid code id p m e))
  | inr (old, there) ↦
      rw (there, find_in, set_code)
        (λ e.
          rw (update_pid-same pid old (with_code code old) c.processes there) (ap (recode code) e))
]

find_cons :
    (q : ℤ) (j : String) (c : LinuxContainer) (m n : Dict LinuxContainer)
    → find_in q m ≡ find_in q n
    → find_in q ((j, c) ∷ m) ≡ find_in q ((j, c) ∷ n)
unfolding find_in
find_cons q j c m n e = elim (Option-cases (get_pid q c.processes)) [
  | inl gone ↦ rw (gone, find_in) e
  | inr (p, there) ↦ rw (there, find_in) refl
]

-- Every other process is found as before.
pub set_code-other :
    (pid q code : ℤ) (m : Dict LinuxContainer)
    → eq_ℤ pid q ≡ false
    → find_in q (set_code pid code m) ≡ find_in q m
unfolding find_in set_code
set_code-other pid q code [] other = refl
set_code-other pid q code ((j, c) ∷ m) other = elim (Option-cases (get_pid pid c.processes)) [
  | inl gone ↦
      rw (gone, set_code)
        (find_cons q j c (set_code pid code m) m (set_code-other pid q code m other))
  | inr (old, there) ↦
      rw (there, set_code)
        (rw (update_pid-other pid q (with_code code old) c.processes other, find_in) refl)
]

module _ ⦃os : Os⦄ (pid code : ℤ) (id : String) (p : Process) (pipe : ℕ) (a : Agent os.World) where
  abbrev pub coded : os.World → Agent os.World
  coded w = record a {
    sandbox = record a.sandbox { containers = set_code pid code a.sandbox.containers };
    world = w;
  }

  pub record_code_lem :
      ((w : os.World) → (os.close pipe w).0 ≢ panic)
      → (w : os.World) × (record_code pid code pipe a ≡ (ok tt, coded w))
  unfolding record_code
  record_code_lem calm = attempt-Quiet (os.close pipe) calm (coded a.world)

  pub reap_child_step :
      find_process pid a.sandbox ≡ some (id, p)
      → p.exit_pipe_w ≡ some pipe
      → reap_child (exited pid code) a ≡ record_code pid code pipe a
  unfolding reap_child
  reap_child_step found pipe_of =
      ap (λ o. on_found pid (some code) o a) found
      ∙ ap (λ o. on_process pid (some code) o a) pipe_of

  -- When a child of the sandbox has ended, its code is what the sandbox's process keeps from then on,
  -- and every other process is found as before.
  pub reap_child-exited :
      find_process pid a.sandbox ≡ some (id, p)
      → p.exit_pipe_w ≡ some pipe
      → ((w : os.World) → (os.close pipe w).0 ≢ panic)
      → let (r, a') = reap_child (exited pid code) a in
        (r ≡ ok tt)
        × (find_process pid a'.sandbox ≡ some (id, with_code code p))
        × ((q : ℤ) → eq_ℤ pid q ≡ false → find_process q a'.sandbox ≡ find_process q a.sandbox)
  reap_child-exited found pipe_of calm =
      let (w, whole) = record_code_lem calm in
      rw (reap_child_step found pipe_of ∙ whole) (
        refl,
        unfold find_process in set_code-same pid code id p a.sandbox.containers found,
        λ q other. unfold find_process in set_code-other pid q code a.sandbox.containers other,
      )
