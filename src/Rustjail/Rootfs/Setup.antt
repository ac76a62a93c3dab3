-- ===== src/Rustjail/Rootfs/Setup.antt =====
-- Making and finishing a root file system (`init_rootfs` and `finish_rootfs` of
-- rustjail/src/mount.rs).
pub mod Laws
use Prim.Native.String.{◌++◌}
use kata_rust_agent.Base.{
  String, Bool, true, false, not, Option, none, some, List, [], ◌∷◌, str_eq, if◌then◌else◌,
}
use kata_rust_agent.Base.Dict.{Dict}
use kata_rust_agent.Base.Exec.{
  Exec, Outcome, ok, nix, einval, pure, unwrap, raise_if, for_each, ◌>>=◌, ◌>>◌,
}
use kata_rust_agent.Oci.{Mount, Linux, Spec}
use kata_rust_agent.Os.{Os}
use kata_rust_agent.Os.Flags.{MsFlags, single, union, without, rdonly, nodev, remount, bind, rec}
use kata_rust_agent.Rustjail.Rootfs.{is_plain, mount_from, mask_path, readonly_path}
use kata_rust_agent.Rustjail.Rootfs.Options.{propagation, parse_mount}
use kata_rust_agent.Rustjail.Rootfs.Devices.{default_symlinks, create_devices, ensure_ptmx}
use kata_rust_agent.Rustjail.Rootfs.Cgroups.{mount_cgroups}

module _ ⦃os : Os⦄ where
  -- the mount of one entry
  abbrev pub mount_entry :
      String → Dict String → Dict String → Mount → MsFlags × String → Exec os.World (Unit {0})
  mount_entry rootfs cpath mounts m (flags, text) =
      if str_eq m.kind "cgroup"
      then mount_cgroups m rootfs flags cpath mounts
      else mount_from m rootfs
          (if str_eq m.destination "/dev" then without flags (single rdonly) else flags) text

  -- the body of the loop over the mounts
  unfoldable pub init_mount : String → Dict String → Dict String → Mount → Exec os.World (Unit {0})
  unfolding parse_mount is_plain mount_cgroups mount_from
  init_mount rootfs cpath mounts m = do
    raise_if (not (is_plain m.destination)) (nix einval)
    mount_entry rootfs cpath mounts m (parse_mount m)

  -- the last part of `init_rootfs`, with the root as the directory
  unfoldable pub init_devices : String → Linux → Bool → Exec os.World (Unit {0})
  unfolding default_symlinks create_devices ensure_ptmx
  init_devices rootfs linux bind_device = do
    olddir ← os.getcwd
    os.chdir rootfs
    default_symlinks
    create_devices linux.devices bind_device
    ensure_ptmx
    os.chdir olddir

  -- `init_rootfs`
  unfoldable pub init_rootfs : Spec → Dict String → Dict String → Bool → Exec os.World (Unit {0})
  unfolding propagation for_each init_mount init_devices
  init_rootfs spec cpath mounts bind_device = do
    linux ← unwrap spec.linux
    path ← unwrap spec.root
    rootfs ← (λ w. (os.canonicalize path w, w))
    os.nix_mount none "/" none (propagation linux.rootfs_propagation) none
    os.nix_mount (some rootfs) rootfs none (union (single bind) (single rec)) none
    for_each spec.mounts (init_mount rootfs cpath mounts)
    init_devices rootfs linux bind_device

  -- the paths of the Linux part that `finish_rootfs` covers
  unfoldable pub cover_paths : Option Linux → Exec os.World (Unit {0})
  unfolding for_each mask_path readonly_path
  cover_paths none = pure tt
  cover_paths (some linux) = do
    for_each linux.masked_paths mask_path
    for_each linux.readonly_paths readonly_path

  -- the body of its loop over the mounts
  unfoldable pub finish_dev : Mount → Exec os.World (Unit {0})
  unfolding parse_mount
  finish_dev m =
      let flags = (parse_mount m).0 in
      if str_eq m.destination "/dev"
      then (if flags rdonly
          then os.nix_mount (some "/dev") "/dev" none (union flags (single remount)) none
          else pure tt)
      else pure tt

  -- its last part; a specification without a root is a panic
  unfoldable pub finish_root : Option String → Bool → String → Exec os.World (Unit {0})
  finish_root root readonly olddir = do
    unwrap root
    if readonly
        then os.nix_mount (some "/") "/" none
            (union (union (single bind) (single rdonly)) (union (single nodev) (single remount)))
            none
        else pure tt
    os.umask 0o022
    os.chdir olddir

  -- `finish_rootfs`
  unfoldable pub finish_rootfs : Spec → Exec os.World (Unit {0})
  unfolding cover_paths for_each finish_dev finish_root
  finish_rootfs spec = do
    olddir ← os.getcwd
    os.chdir "/"
    cover_paths spec.linux
    for_each spec.mounts finish_dev
    finish_root spec.root spec.root_readonly olddir
