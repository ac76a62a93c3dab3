-- ===== src/Sandbox.antt =====
-- The sandbox (src/sandbox.rs): the state that all requests share, and the methods that only touch
-- that state. The proofs are in the modules below.
pub mod Agent
pub mod Counts
pub mod Persistent
pub mod Online
pub mod Orderly
pub mod Quiet
pub mod Release
use kata_rust_agent.Base.{
  ℕ, ◌+◌, ◌-◌, ◌%◌, ◌^◌, String, Bool, true, false, Option, none, some, List, [], ◌∷◌, ltb, str_eq,
  ℤ, if◌then◌else◌,
}
use kata_rust_agent.Base.Dict.{Dict, get, put, remove}
use kata_rust_agent.Rustjail.Process.{Process, get_pid}
use kata_rust_agent.Rustjail.Container.{LinuxContainer}

-- `Namespace` of src/namespace.rs
pub record Namespace : Type 0 where
  pub path : String

-- The logger, the network and the netlink handle are not part of the model. The sender is the
-- number of the channel that ends the agent.
pub record Sandbox : Type 0 where
  pub id : String
  pub hostname : String
  pub containers : Dict LinuxContainer
  pub mounts : List String
  pub container_mounts : Dict (List String)
  pub pci_device_map : Dict String
  pub shared_utsns : Namespace
  pub shared_ipcns : Namespace
  pub storages : Dict ℕ
  pub running : Bool
  pub no_pivot_root : Bool
  pub sandbox_pid_ns : Bool
  pub sender : Option ℕ

abbrev pub u32_mod : ℕ
u32_mod = 2 ^ 32

-- `*count += 1` and `*count -= 1` on a `u32`, as a release build computes them.
abbrev pub inc32 : ℕ → ℕ
inc32 n = (n + 1) % u32_mod

abbrev pub dec32 : ℕ → ℕ
dec32 n = (n + u32_mod - 1) % u32_mod

-- `Sandbox::set_sandbox_storage`: true if the storage is new.
unfoldable pub set_sandbox_storage : String → Sandbox → Bool × Sandbox
set_sandbox_storage path s = elim (get path s.storages) [
  | none ↦ (true, record s { storages = put path 1 s.storages })
  | some count ↦ (false, record s { storages = put path (inc32 count) s.storages })
]

-- `Sandbox::unset_sandbox_storage`
unfoldable pub unset_sandbox_storage : String → Sandbox → Bool × Sandbox
unset_sandbox_storage path s = elim (get path s.storages) [
  | none ↦ (false, s)
  | some count ↦
      let left = put path (dec32 count) s.storages in
      (true, record s { storages = if ltb (dec32 count) 1 then remove path left else left })
]

-- `Sandbox::add_container`
unfoldable pub add_container : LinuxContainer → Sandbox → Sandbox
add_container c s = record s { containers = put c.id c s.containers }

-- `Sandbox::get_container`
unfoldable pub get_container : String → Sandbox → Option LinuxContainer
get_container id s = get id s.containers

-- `Sandbox::find_process`: the container that holds the pid, first in the order of iteration.
unfoldable pub find_in : ℤ → Dict LinuxContainer → Option (String × Process)
find_in pid [] = none
find_in pid ((id, c) ∷ m) = elim (get_pid pid c.processes) [
  | none ↦ find_in pid m
  | some p ↦ some (id, p)
]

unfoldable pub find_process : ℤ → Sandbox → Option (String × Process)
unfolding find_in
find_process pid s = find_in pid s.containers
