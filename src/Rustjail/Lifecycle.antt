-- ===== src/Rustjail/Lifecycle.antt =====
-- The operations of a created container that change its status (rustjail/src/container.rs): `exec`,
-- `destroy`, `signal`, with `oci_state` and the parent's part of `execute_hook`. A container method
-- runs on the container and the world.
use kata_rust_agent.Base.{
  ℕ, String, Bool, not, Option, none, some, List, [], ◌∷◌, ℤ, pos, negsuc, eq_ℤ, str_eq,
  if◌then◌else◌,
}
use Prim.Native.String.{◌++◌}
use kata_rust_agent.Base.Exec.{
  Exec, Outcome, ok, err, nix, einval, etimedout, epipe, unknown, pure, gets, lift, unwrap, modify,
  raise_if, for_each, ◌>>=◌, ◌>>◌,
}
use kata_rust_agent.Oci.{Hook, Hooks, OciState}
use kata_rust_agent.Os.{Os}
use kata_rust_agent.Rustjail.Container.{LinuxContainer, pids}

abbrev pub exec_fifo_filename : String
exec_fifo_filename = "exec.fifo"

abbrev pub sigkill : ℕ
sigkill = 9

-- A container method: the container and the world after it.
pub record Ctr (W : Type 0) : Type 0 where
  pub ctr : LinuxContainer
  pub world : W

-- A call of the operating system from a container method.
unfoldable pub sys : {W A : Type 0} → Exec W A → Exec (Ctr W) A
sys m s = let (r, w) = m s.world in (r, record s { world = w })

-- `status != "stopped"`
abbrev pub pid_of_status : String → ℤ → ℤ
pid_of_status status pid = if not (str_eq status "stopped") then pid else pos 0

module _ ⦃os : Os⦄ where
  -- `LinuxContainer::oci_state`
  unfoldable pub oci_state : LinuxContainer → Exec os.World OciState
  oci_state c = do
    spec ← unwrap c.config.spec
    status ← unwrap c.status
    root ← unwrap spec.root
    path ← λ w. (os.canonicalize root w, w)
    bundle ← unwrap (os.parent path)
    pure (record {
      version = spec.version;
      id = c.id;
      status = status;
      pid = pid_of_status status c.init_process_pid;
      bundle = bundle;
      annotations = spec.annotations;
    })

  -- what `execute_hook` makes of the status that its child sends
  abbrev pub hook_result : ℤ → Outcome (Unit {0})
  hook_result status =
      if not (eq_ℤ status (pos 0))
      then if eq_ℤ status (negsuc 109)
        then err (nix etimedout)
        else if eq_ℤ status (negsuc 31)
        then err (nix epipe)
        else err (nix unknown)
      else ok tt

  unfoldable pub execute_hook : OciState → Hook → Exec os.World (Unit {0})
  execute_hook st h = do
    path ← λ w. (os.canonicalize h.path w, w)
    found ← gets (os.exists path)
    raise_if (not found) (nix einval)
    status ← os.hook_child path h st
    lift (hook_result status)

  abbrev pub poststop_of : Option Hooks → List Hook
  poststop_of none = []
  poststop_of (some h) = h.poststop

  -- `LinuxContainer::destroy`
  unfoldable pub destroy : Exec (Ctr os.World) (Unit {0})
  unfolding for_each oci_state execute_hook pids sys
  destroy = do
    c ← gets (λ s. s.ctr)
    spec ← unwrap c.config.spec
    st ← sys (oci_state c)
    sys (for_each (pids c.processes) (λ pid. os.kill pid sigkill))
    sys (for_each (poststop_of spec.hooks) (execute_hook st))
    modify (λ s. record s { ctr = record s.ctr { status = some "stopped" } })

  -- `LinuxContainer::signal`
  unfoldable pub signal : ℕ → Bool → Exec (Ctr os.World) (Unit {0})
  unfolding for_each pids sys
  signal sig all = do
    c ← gets (λ s. s.ctr)
    if all then sys (for_each (pids c.processes) (λ pid. os.kill pid sig)) else pure tt
    sys (os.kill c.init_process_pid sig)

  -- `LinuxContainer::exec`: one byte to the FIFO that the container's first process waits on
  unfoldable pub exec : Exec (Ctr os.World) (Unit {0})
  unfolding sys
  exec = do
    c ← gets (λ s. s.ctr)
    fd ← sys (os.open_fd (c.root ++ "/" ++ exec_fifo_filename))
    sys (os.write_fd fd (0 ∷ []))
    modify (λ s. record s {
      ctr = record s.ctr { init_process_start_time = os.now s.world; status = some "running" };
    })
    sys (os.close fd)
