-- ===== src/Reaper/Keeps.antt =====
-- What the reaper keeps of the containers: all that a new exit code of a process keeps.
use kata_rust_agent.Base.{ℕ, String, Option, none, some, List, ℤ, Option-cases, inl, inr}
use kata_rust_agent.Base.Dict.{Dict}
use kata_rust_agent.Base.Exec.{Exec, pure, attempt, modify, ◌>>◌}
use kata_rust_agent.Base.Exec.Keeps.{Keeps, then-Keeps, attempt-Keeps, for_each-Keeps}
use kata_rust_agent.Os.{Os}
use kata_rust_agent.Reaper.{
  WaitStatus, pid_of, code_of, set_code, record_code, on_process, on_found, reap_child,
  reap_children,
}
use kata_rust_agent.Rustjail.Container.{LinuxContainer}
use kata_rust_agent.Rustjail.Process.{Process}
use kata_rust_agent.Sandbox.{find_process}
use kata_rust_agent.Sandbox.Agent.{Agent, sys}

module _ ⦃os : Os⦄ (P : Dict LinuxContainer → Type 0)
    (coded : (pid code : ℤ) (m : Dict LinuxContainer) → P m → P (set_code pid code m)) where
  abbrev On : Agent os.World → Type 0
  On a = P a.sandbox.containers

  sys-On : {A : Type 0} (m : Exec os.World A) → Keeps On (sys m)
  unfolding sys
  sys-On m a h = h

  record_code-On : (pid code : ℤ) (pipe : ℕ) → Keeps On (record_code pid code pipe)
  unfolding record_code
  record_code-On pid code pipe =
      let note : Exec (Agent os.World) (Unit {0}) = modify (λ a. record a {
        sandbox = record a.sandbox { containers = set_code pid code a.sandbox.containers };
      }) in
      let close : Exec (Agent os.World) (Unit {0}) = sys (os.close pipe) in
      then-Keeps On note (attempt close >> pure tt) (λ a k. coded pid code a.sandbox.containers k)
        (then-Keeps On (attempt close) (pure tt) (attempt-Keeps On close (sys-On (os.close pipe)))
          (λ a k. k))

  on_process-On :
      (pid : ℤ) (code : Option ℤ) (pipe : Option ℕ) → Keeps On (on_process pid code pipe)
  on_process-On pid code none a h = h
  on_process-On pid none (some pipe) a h = h
  on_process-On pid (some code) (some pipe) a h = record_code-On pid code pipe a h

  on_found-On :
      (pid : ℤ) (code : Option ℤ) (found : Option (String × Process))
      → Keeps On (on_found pid code found)
  on_found-On pid code none a h = h
  on_found-On pid code (some (id, p)) a h = on_process-On pid code p.exit_pipe_w a h

  pub reap_child-Keeps : (status : WaitStatus) → Keeps On (reap_child status)
  unfolding reap_child
  reap_child-Keeps status a h = elim (Option-cases (pid_of status)) [
    | inl gone ↦ rw (gone, reap_child) h
    | inr (pid, there) ↦
        rw (there, reap_child) (on_found-On pid (code_of status) (find_process pid a.sandbox) a h)
  ]

  pub reap_children-Keeps : (l : List WaitStatus) → Keeps On (reap_children l)
  unfolding reap_children
  reap_children-Keeps = for_each-Keeps On reap_child reap_child-Keeps
