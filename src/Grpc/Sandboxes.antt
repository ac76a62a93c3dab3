-- ===== src/Grpc/Sandboxes.antt =====
-- The requests that start and end a sandbox and bring resources online (`create_sandbox`,
-- `destroy_sandbox` and `online_cpu_mem` of src/grpc.rs). A reply with an error status is an error of
-- the request; the text of an error is a parameter.
pub mod Laws
use kata_rust_agent.Base.{
  ℕ, ◌+◌, String, Bool, true, false, not, Option, none, some, List, [], ◌∷◌, ltb, str_eq,
  if◌then◌else◌,
}
use kata_rust_agent.Base.Exec.{
  Exec, Outcome, ok, err, panic, Error, error_code, msg, pure, raise, crash, gets, attempt, modify,
  unwrap, ◌>>=◌, ◌>>◌,
}
use kata_rust_agent.Os.{Os}
use kata_rust_agent.Device.Names.{Recv}
use kata_rust_agent.Mount.Storage.{Storage, add_storages}
use kata_rust_agent.Sandbox.{Sandbox}
use kata_rust_agent.Sandbox.Agent.{Agent, sys, destroy_all}
use kata_rust_agent.Sandbox.Persistent.{setup_shared_namespaces}
use kata_rust_agent.Sandbox.Online.{OnlineCpuMemRequest, online_cpu_memory}

abbrev pub container_base : String
container_base = "/run/agent"

-- `CreateSandboxRequest`
pub record CreateSandboxRequest : Type 0 where
  pub hostname : String
  pub sandbox_id : String
  pub storages : List Storage

-- the fields that a request sets at once
abbrev pub begin : CreateSandboxRequest → Sandbox → Sandbox
begin req s = record s {
  hostname = req.hostname;
  running = true;
  id = if str_eq req.sandbox_id "" then s.id else req.sandbox_id;
}

module _ ⦃os : Os⦄ where
  -- `match m { Ok(v) => v, Err(e) => return FailedPrecondition(e) }`
  abbrev pub precondition : {A : Type 0} → (Error → String) → Outcome A → Exec (Agent os.World) A
  precondition display (ok a) = pure a
  precondition display (err e) = raise (msg (display e))
  precondition display panic = crash

  -- `create_sandbox`
  unfoldable pub create_sandbox :
      (Error → String) → Recv → CreateSandboxRequest → Exec (Agent os.World) (Unit {0})
  unfolding sys setup_shared_namespaces add_storages
  create_sandbox display recv req = do
    attempt (sys (os.remove_dir_all container_base))
    attempt (sys (os.create_dir_all container_base))
    modify (λ a. record a { sandbox = begin req a.sandbox })
    shared ← attempt (setup_shared_namespaces display)
    precondition display shared
    added ← attempt (add_storages recv req.storages)
    m ← precondition display added
    modify (λ a. record a { sandbox = record a.sandbox { mounts = m } })

  -- `m.unwrap()` on a result
  abbrev pub must : Outcome (Unit {0}) → Exec (Agent os.World) (Unit {0})
  must (ok _) = pure tt
  must (err e) = crash
  must panic = crash

  -- the channel that ends the agent is told; `send` says whether its receiver still listens
  abbrev pub notify : (ℕ → Bool) → Exec (Agent os.World) (Unit {0})
  notify send = do
    channel ← gets (λ a. a.sandbox.sender)
    ch ← unwrap channel
    if send ch then pure tt else crash
    modify (λ a. record a { sandbox = record a.sandbox { sender = none } })

  -- `destroy_sandbox`
  unfoldable pub destroy_sandbox : (ℕ → Bool) → Exec (Agent os.World) (Unit {0})
  unfolding destroy_all
  destroy_sandbox send = do r ← attempt destroy_all; must r; notify send

  -- `online_cpu_mem`
  unfoldable pub online_cpu_mem :
      (String → String → Bool) → OnlineCpuMemRequest → Exec (Agent os.World) (Unit {0})
  unfolding sys online_cpu_memory
  online_cpu_mem is_match req = do
    s ← gets (λ a. a.sandbox)
    r ← attempt (sys (online_cpu_memory is_match s req))
    elim r [ ok _ ↦ pure tt | err e ↦ raise (msg "Internal error") | panic ↦ crash ]
