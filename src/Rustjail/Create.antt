-- ===== src/Rustjail/Create.antt =====
-- `LinuxContainer::new` of rustjail/src/container.rs.
pub mod Laws
use Prim.Native.String.{◌++◌}
use kata_rust_agent.Base.{
  String, Bool, Option, none, some, List, [], ◌∷◌, negsuc, str_eq, if◌then◌else◌,
}
use kata_rust_agent.Base.Exec.{
  Exec, Outcome, ok, err, panic, io, already_exists, chain, nix, einval, pure, raise, crash, gets,
  or_raise, attempt, chain_err, ◌>>=◌, ◌>>◌,
}
use kata_rust_agent.Oci.{Linux, Spec}
use kata_rust_agent.Os.{Os}
use kata_rust_agent.Rustjail.Cgroups.Manager.{new as new_manager}
use kata_rust_agent.Rustjail.Cgroups.Totals.{get_mounts}
use kata_rust_agent.Rustjail.Container.{Config, LinuxContainer}
use kata_rust_agent.Rustjail.Validator.{validate}

-- the path of the container's cgroups
abbrev pub cgroups_path : String → Linux → String
cgroups_path id linux = if str_eq linux.cgroups_path "" then "/" ++ id else linux.cgroups_path

module _ ⦃os : Os⦄ where
  abbrev pub make_root : String → String → Exec os.World (Unit {0})
  make_root id root = do
    r ← attempt (os.create_dir_all root)
    elim r [
      | ok _ ↦ pure tt
      | err (io already_exists) ↦
          raise (chain ("container " ++ id ++ " already exists") (io already_exists))
      | err e ↦ raise (chain ("fail to create container directory " ++ root) e)
      | panic ↦ crash
    ]

  abbrev pub own_root : String → String → Exec os.World (Unit {0})
  own_root id root = do
    uid ← gets os.getuid
    gid ← gets os.getgid
    chain_err ("cannot change onwer of container " ++ id ++ " root") (os.chown root uid gid)

  -- `LinuxContainer::new`
  unfoldable pub new : String → String → Config → Exec os.World LinuxContainer
  unfolding validate new_manager get_mounts
  new id base config =
      let root = base ++ "/" ++ id in
      do
        (λ w. (validate w config, w))
        make_root id root
        own_root id root
        spec ← or_raise config.spec (nix einval)
        linux ← or_raise spec.linux (nix einval)
        cgroup_manager ← new_manager get_mounts (cgroups_path id linux)
        start_time ← gets os.now
        pure (record {
          id = id;
          root = root;
          config = config;
          cgroup_manager = some cgroup_manager;
          init_process_pid = negsuc 0;
          init_process_start_time = start_time;
          processes = [];
          status = some "stopped";
        })
