-- ===== src/Mount/Bare.antt =====
-- `BareMount`, `mount_to_rootfs` and `ensure_destination_exists` of src/mount.rs.
use Prim.Native.String.{◌++◌}
use kata_rust_agent.Base.{String, not, ◌||◌, List, [], ◌∷◌, str_eq, if◌then◌else◌}
use kata_rust_agent.Base.Exec.{
  Exec, err, error_code, nul_byte, pure, raise, gets, or_raise, attempt, chain_err, raise_if,
  for_each, ◌>>=◌, ◌>>◌,
}
use kata_rust_agent.Base.Text.{contains}
use kata_rust_agent.Os.{Os}
use kata_rust_agent.Os.Flags.{MsFlags}
use kata_rust_agent.Mount.Options.{parse_mount_flags_and_options}

pub record BareMount : Type 0 where
  pub source : String
  pub destination : String
  pub fs_type : String
  pub flags : MsFlags
  pub options : String

-- `INIT_MOUNT`
pub record InitMount : Type 0 where
  pub fstype : String
  pub src : String
  pub dest : String
  pub options : List String

-- `INIT_ROOTFS_MOUNTS`
abbrev pub init_rootfs_mounts : List InitMount
init_rootfs_mounts =
    record {
      fstype = "proc";
      src = "proc";
      dest = "/proc";
      options = "nosuid" ∷ "nodev" ∷ "noexec" ∷ [];
    }
    ∷ record {
      fstype = "sysfs";
      src = "sysfs";
      dest = "/sys";
      options = "nosuid" ∷ "nodev" ∷ "noexec" ∷ [];
    }
    ∷ record { fstype = "devtmpfs"; src = "dev"; dest = "/dev"; options = "nosuid" ∷ [] }
    ∷ record {
      fstype = "tmpfs";
      src = "tmpfs";
      dest = "/dev/shm";
      options = "nosuid" ∷ "nodev" ∷ [];
    }
    ∷ record {
      fstype = "devpts";
      src = "devpts";
      dest = "/dev/pts";
      options = "nosuid" ∷ "noexec" ∷ [];
    }
    ∷ record { fstype = "tmpfs"; src = "tmpfs"; dest = "/run"; options = "nosuid" ∷ "nodev" ∷ [] }
    ∷ []

module _ ⦃os : Os⦄ where
  -- `CString::new(s)?` refuses a text with a zero byte in it
  abbrev pub c_string : String → Exec os.World (Unit {0})
  c_string s = raise_if (contains s "\0") nul_byte

  -- `BareMount::mount`
  unfoldable pub mount : BareMount → Exec os.World (Unit {0})
  mount m = do
    raise_if (str_eq m.source "") (error_code "need mount source")
    raise_if (str_eq m.destination "") (error_code "need mount destination")
    c_string m.source
    c_string m.destination
    raise_if (str_eq m.fs_type "") (error_code "need mount FS type")
    c_string m.fs_type
    c_string m.options
    os.mount m.source m.destination m.fs_type m.flags m.options

  -- `mount_to_rootfs`: a failure to mount "dev" is only logged
  unfoldable pub mount_to_rootfs : InitMount → Exec os.World (Unit {0})
  unfolding mount parse_mount_flags_and_options
  mount_to_rootfs m = do
    let parsed = parse_mount_flags_and_options m.options
    chain_err "could not create directory" (os.create_dir_all m.dest)
    r ← attempt (
        mount (record {
          source = m.src;
          destination = m.dest;
          fs_type = m.fstype;
          flags = parsed.0;
          options = parsed.1;
        }))
    elim r [ err e ↦ if not (str_eq m.src "dev") then raise e else pure tt | _ ↦ pure tt ]

  -- `general_mount`
  unfoldable pub general_mount : Exec os.World (Unit {0})
  unfolding mount_to_rootfs for_each
  general_mount = for_each init_rootfs_mounts mount_to_rootfs

  -- the directory above the destination, which is made first if the destination is not there
  unfoldable pub ensure_parent : String → Exec os.World (Unit {0})
  ensure_parent destination = do
    dir ←
        or_raise (os.parent destination)
          (error_code ("mount destination " ++ destination ++ " doesn't exist"))
    there ← gets (os.exists dir)
    if not there then os.create_dir_all dir else pure tt

  -- `ensure_destination_exists`
  unfoldable pub ensure_destination_exists : String → String → Exec os.World (Unit {0})
  unfolding ensure_parent
  ensure_destination_exists destination fs_type = do
    there ← gets (os.exists destination)
    if not there then ensure_parent destination else pure tt
    is_dir ← gets (os.is_dir destination)
    if not (str_eq fs_type "bind") || is_dir
        then os.create_dir_all destination
        else os.open_create destination
