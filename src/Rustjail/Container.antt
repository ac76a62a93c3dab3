-- ===== src/Rustjail/Container.antt =====
-- The state of a container (rustjail/src/container.rs, rustjail/src/specconv.rs) and of its cgroup
-- manager (rustjail/src/cgroups/fs/mod.rs).
use kata_rust_agent.Base.{
  ℕ, String, Bool, Option, none, some, List, [], ◌∷◌, map, ℤ, str_eq, if◌then◌else◌,
}
use kata_rust_agent.Base.Dict.{Dict}
use kata_rust_agent.Oci.{Spec}
use kata_rust_agent.Rustjail.Process.{Process, Processes}

-- `CreateOpts`, which `Config` is another name for.
pub record Config : Type 0 where
  pub cgroup_name : String
  pub use_systemd_cgroup : Bool
  pub no_pivot_root : Bool
  pub no_new_keyring : Bool
  pub spec : Option Spec
  pub rootless_euid : Bool
  pub rootless_cgroup : Bool

-- `Manager` of the cgroup file system: for each subsystem the container's directory, the mount
-- point and the agent's own group.
pub record Manager : Type 0 where
  pub paths : Dict String
  pub mounts : Dict String
  pub rels : Dict String
  pub cpath : String

pub record LinuxContainer : Type 0 where
  pub id : String
  pub root : String
  pub config : Config
  pub cgroup_manager : Option Manager
  pub init_process_pid : ℤ
  pub init_process_start_time : ℕ
  pub processes : Processes
  pub status : Option String

-- `LinuxContainer::get_process`, by the key of the process found: the first in the order of
-- iteration with this exec id.
unfoldable pub get_process : String → Processes → Option (ℤ × Process)
get_process eid [] = none
get_process eid ((pid, p) ∷ m) = if str_eq eid p.exec_id then some (pid, p) else get_process eid m

abbrev key : ℤ × Process → ℤ
key e = e.0

-- `LinuxContainer::processes`
unfoldable pub pids : Processes → List ℤ
pids = map key
