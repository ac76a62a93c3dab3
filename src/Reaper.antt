-- ===== src/Reaper.antt =====
-- The thread that reaps ended children (`setup_signal_handler` of src/main.rs): what it does with
-- one answer of `waitpid`, and with a sequence of them.
pub mod Keeps
pub mod Laws
pub mod Present
pub mod Waiters
use kata_rust_agent.Base.{ℕ, String, Option, none, some, List, [], ◌∷◌, ℤ, pos}
use kata_rust_agent.Base.Dict.{Dict}
use kata_rust_agent.Base.Exec.{
  Exec, ok, err, panic, pure, gets, modify, attempt, for_each, ◌>>=◌, ◌>>◌,
}
use kata_rust_agent.Os.{Os}
use kata_rust_agent.Rustjail.Process.{Process, get_pid, update_pid}
use kata_rust_agent.Rustjail.Container.{LinuxContainer}
use kata_rust_agent.Sandbox.{Sandbox, find_process}
use kata_rust_agent.Sandbox.Agent.{Agent, sys}

-- `WaitStatus`: `changed` is a child that stopped or went on
pub data WaitStatus : Type 0 where
  exited : ℤ → ℤ → WaitStatus
  signaled : ℤ → ℕ → WaitStatus
  changed : ℤ → WaitStatus
  still_alive : WaitStatus

abbrev pub pid_of : WaitStatus → Option ℤ
pid_of (exited pid code) = some pid
pid_of (signaled pid sig) = some pid
pid_of (changed pid) = some pid
pid_of still_alive = none

-- `ret`
abbrev pub code_of : WaitStatus → Option ℤ
code_of (exited pid code) = some code
code_of (signaled pid sig) = some (pos sig)
code_of (changed pid) = none
code_of still_alive = none

abbrev pub with_code : ℤ → Process → Process
with_code code p = record p { exit_code = code }

-- The process that `Sandbox::find_process` returns is changed where it stands.
unfoldable pub set_code : ℤ → ℤ → Dict LinuxContainer → Dict LinuxContainer
unfolding get_pid update_pid
set_code pid code [] = []
set_code pid code ((id, c) ∷ m) =
    let rest = set_code pid code m in
    elim (get_pid pid c.processes) [
      | none ↦ (id, c) ∷ rest
      | some p ↦ (id, record c { processes = update_pid pid (with_code code p) c.processes }) ∷ m
    ]

module _ ⦃os : Os⦄ where
  -- the end of the loop's body: the code is kept and the pipe that the waiter reads is closed
  unfoldable pub record_code : ℤ → ℤ → ℕ → Exec (Agent os.World) (Unit {0})
  unfolding set_code sys
  record_code pid code pipe = do
    modify (λ a. record a {
      sandbox = record a.sandbox { containers = set_code pid code a.sandbox.containers };
    })
    attempt (sys (os.close pipe))
    pure tt

  abbrev pub on_process : ℤ → Option ℤ → Option ℕ → Exec (Agent os.World) (Unit {0})
  on_process pid code none = pure tt
  on_process pid none (some pipe) = pure tt
  on_process pid (some code) (some pipe) = record_code pid code pipe

  abbrev pub on_found : ℤ → Option ℤ → Option (String × Process) → Exec (Agent os.World) (Unit {0})
  on_found pid code none = pure tt
  on_found pid code (some (id, p)) = on_process pid code p.exit_pipe_w

  unfoldable pub reap_child : WaitStatus → Exec (Agent os.World) (Unit {0})
  unfolding find_process record_code
  reap_child status = elim (pid_of status) [
    | none ↦ pure tt
    | some pid ↦ do
      found ← gets (λ a. find_process pid a.sandbox)
      on_found pid (code_of status) found
  ]

  -- the loop over some answers; where no child has ended, the next signal comes before the next answer
  unfoldable pub reap_children : List WaitStatus → Exec (Agent os.World) (Unit {0})
  unfolding reap_child for_each
  reap_children l = for_each l reap_child
