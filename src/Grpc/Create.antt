-- ===== src/Grpc/Create.antt =====
-- The requests that create and start a container and run a process in it (`do_create_container`,
-- `do_start_container`, `do_exec_process` and `setup_bundle` of src/grpc.rs).
pub mod Laws
pub mod Requests
use Prim.Native.String.{◌++◌}
use kata_rust_agent.Base.{ℕ, String, Bool, true, false, Option, none, some, List}
use kata_rust_agent.Base.Dict.{Dict, get, put}
use kata_rust_agent.Base.Exec.{
  Exec, Outcome, ok, err, panic, nix, einval, pure, gets, lift, unwrap, or_raise, attempt,
  chain_err, modify, ◌>>=◌, ◌>>◌,
}
use kata_rust_agent.Oci.{Spec}
use kata_rust_agent.Oci.Process.{OciProcess}
use kata_rust_agent.Os.{Os}
use kata_rust_agent.Device.Names.{Recv, rescan_pci_bus}
use kata_rust_agent.Device.Handlers.{Device, add_devices}
use kata_rust_agent.Mount.Storage.{Storage, add_storages}
use kata_rust_agent.Grpc.Namespaces.{update_container_namespaces}
use kata_rust_agent.Grpc.Sandboxes.{container_base}
use kata_rust_agent.Rustjail.Container.{Config, LinuxContainer}
use kata_rust_agent.Rustjail.Create.{new}
use kata_rust_agent.Rustjail.Join.{Outside}
use kata_rust_agent.Rustjail.Lifecycle.{Ctr, exec}
use kata_rust_agent.Rustjail.Process.{Process, new as new_process}
use kata_rust_agent.Rustjail.Start.{start, run}
use kata_rust_agent.Sandbox.{Sandbox, add_container, get_container}
use kata_rust_agent.Sandbox.Agent.{Agent, sys, on_container}

-- `CreateContainerRequest`
pub record CreateContainerRequest : Type 0 where
  pub container_id : String
  pub exec_id : String
  pub devices : List Device
  pub storages : List Storage
  pub oci : Option Spec

-- a method of a container that the sandbox does not hold yet, and the container after it
abbrev pub new_from :
    {W A : Type 0} → Outcome A × Ctr W → Agent W → Outcome LinuxContainer × Agent W
new_from (ok _, t) a = (ok t.ctr, record a { world = t.world })
new_from (err e, t) a = (err e, record a { world = t.world })
new_from (panic, t) a = (panic, record a { world = t.world })

unfoldable pub on_new :
    {W A : Type 0} → LinuxContainer → Exec (Ctr W) A → Exec (Agent W) LinuxContainer
on_new c m a = new_from (m (record { ctr = c; world = a.world })) a

abbrev pub options : Sandbox → Spec → Config
options s oci = record {
  cgroup_name = "";
  use_systemd_cgroup = false;
  no_pivot_root = s.no_pivot_root;
  no_new_keyring = false;
  spec = some oci;
  rootless_euid = false;
  rootless_cgroup = false;
}

abbrev pub with_mounts : {W : Type 0} → String → List String → Agent W → Agent W
with_mounts cid m a = record a {
  sandbox = record a.sandbox { container_mounts = put cid m a.sandbox.container_mounts };
}

-- `s.add_container(ctr)`
abbrev pub with_container : {W : Type 0} → LinuxContainer → Agent W → Agent W
with_container c a = record a { sandbox = add_container c a.sandbox }

module _ ⦃os : Os⦄ (save : Spec → String → Exec os.World (Unit {0})) where
  -- `setup_bundle`; `save` writes the specification as JSON
  unfoldable pub setup_bundle : Spec → Exec os.World (Unit {0})
  setup_bundle spec = do
    root ← or_raise spec.root (nix einval)
    rootfs ← (λ w. (os.canonicalize root w, w))
    bundle_path ← unwrap (os.parent rootfs)
    unwrap spec.process
    attempt (save spec (bundle_path ++ "/" ++ "config.json"))
    os.chdir bundle_path

module _ ⦃os : Os⦄ where
  -- `do_start_container`
  unfoldable pub do_start_container : String → Exec (Agent os.World) (Unit {0})
  unfolding get_container on_container exec
  do_start_container cid = do
    found ← gets (λ a. get_container cid a.sandbox)
    c ← or_raise found (nix einval)
    on_container cid c exec

module _ ⦃os : Os⦄ (ext : Outside) where
  -- the container of a request, started and put into the sandbox
  unfoldable pub create_and_start : String → String → Spec → Exec (Agent os.World) (Unit {0})
  unfolding new new_process start on_new add_container sys
  create_and_start cid eid oci = do
    s ← gets (λ a. a.sandbox)
    ctr ← sys (new cid container_base (options s oci))
    process ← or_raise oci.process (nix einval)
    p ← sys (new_process process eid true)
    started ← on_new ctr (start ext p)
    modify (with_container started)

  module _ (show_device : Device → String) (recv : Recv)
      (save : Spec → String → Exec os.World (Unit {0})) where
    -- `do_create_container`
    unfoldable pub do_create_container : CreateContainerRequest → Exec (Agent os.World) (Unit {0})
    unfolding rescan_pci_bus add_devices add_storages update_container_namespaces setup_bundle
        create_and_start sys
    do_create_container req = do
      request ← unwrap req.oci
      chain_err "Could not rescan PCI bus" (sys rescan_pci_bus)
      oci ← add_devices show_device recv req.devices request
      m ← add_storages recv req.storages
      modify (with_mounts req.container_id m)
      s ← gets (λ a. a.sandbox)
      spec ← lift (update_container_namespaces s oci)
      sys (setup_bundle save spec)
      create_and_start req.container_id req.exec_id spec

  -- `do_exec_process`
  unfoldable pub do_exec_process :
      String → String → Option OciProcess → Exec (Agent os.World) (Unit {0})
  unfolding new_process get_container on_container run sys
  do_exec_process cid exec_id process = do
    ocip ← or_raise process (nix einval)
    p ← sys (new_process ocip exec_id false)
    found ← gets (λ a. get_container cid a.sandbox)
    c ← or_raise found (nix einval)
    on_container cid c (run ext p)
