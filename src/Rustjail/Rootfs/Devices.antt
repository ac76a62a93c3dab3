-- ===== src/Rustjail/Rootfs/Devices.antt =====
-- The devices and links below /dev of a root file system (rustjail/src/mount.rs, with the default
-- devices of rustjail/src/container.rs).
use Prim.Native.Nat.{bit_and, bit_or}
use Prim.Native.String.{◌++◌}
use kata_rust_agent.Base.{
  ℕ, ◌+◌, ◌*◌, ◌-◌, ◌%◌, ◌^◌, String, Bool, not, ◌&&◌, none, some, List, [], ◌∷◌, ℤ, pos, negsuc,
  starts_with, if◌then◌else◌,
}
use kata_rust_agent.Base.Dict.{Dict, get}
use kata_rust_agent.Base.Text.{contains}
use kata_rust_agent.Base.Exec.{
  Exec, ok, error_code, pure, unwrap, or_raise, attempt, raise_if, for_each, ◌>>=◌, ◌>>◌,
}
use kata_rust_agent.Oci.{LinuxDevice}
use kata_rust_agent.Os.{Os}
use kata_rust_agent.Os.Flags.{single, bind}
use kata_rust_agent.Rustjail.Rootfs.{from_second}

-- `DEFAULT_DEVICES`
abbrev pub char_device : String → ℕ → ℕ → LinuxDevice
char_device path major minor = record {
  path = path;
  kind = "c";
  major = pos major;
  minor = pos minor;
  file_mode = 0o066;
  uid = 0xffffffff;
  gid = 0xffffffff;
}

abbrev pub default_devices : List LinuxDevice
default_devices =
    char_device "/dev/null" 1 3
    ∷ char_device "/dev/zero" 1 5
    ∷ char_device "/dev/full" 1 7
    ∷ char_device "/dev/tty" 5 0
    ∷ char_device "/dev/urandom" 1 9
    ∷ char_device "/dev/random" 1 8
    ∷ []

-- `SYMLINKS`
abbrev pub symlinks : List (String × String)
symlinks =
    ("/proc/self/fd", "dev/fd")
    ∷ ("/proc/self/fd/0", "dev/stdin")
    ∷ ("/proc/self/fd/1", "dev/stdout")
    ∷ ("/proc/self/fd/2", "dev/stderr")
    ∷ []

-- `LINUXDEVICETYPE`: `S_IFCHR`, `S_IFBLK` and `S_IFIFO`
abbrev pub device_types : Dict ℕ
device_types = ("c", 0o020000) ∷ ("b", 0o060000) ∷ ("p", 0o010000) ∷ []

-- `n as u64` of an `i64`
abbrev pub as_u64 : ℤ → ℕ
as_u64 (pos n) = n
as_u64 (negsuc n) = 2 ^ 64 - (n + 1)

-- `makedev`, on `u64`
unfoldable pub makedev : ℕ → ℕ → ℕ
makedev major minor = bit_or (bit_or (bit_and minor 0xff) (bit_and major 0xfff * 2 ^ 8)) (
    bit_or ((bit_and minor (2 ^ 64 - 0x100) * 2 ^ 12) % 2 ^ 64)
      ((bit_and major (2 ^ 64 - 0x1000) * 2 ^ 32) % 2 ^ 64))

-- the check of `create_devices`
unfoldable pub is_device_path : String → Bool
unfolding contains
is_device_path path = starts_with path "/dev" && not (contains path "..")

module _ ⦃os : Os⦄ where
  -- `default_symlinks`
  unfoldable pub default_symlinks : Exec os.World (Unit {0})
  unfolding for_each
  default_symlinks = do
    kcore ← (λ w. (ok (os.exists "/proc/kcore" w), w))
    if kcore then os.symlink "/proc/kcore" "dev/kcore" else pure tt
    for_each symlinks (λ (e : String × String). os.symlink e.0 e.1)

  -- `ensure_ptmx`
  unfoldable pub ensure_ptmx : Exec os.World (Unit {0})
  ensure_ptmx = do attempt (os.remove_file "dev/ptmx"); os.symlink "pts/ptmx" "dev/ptmx"

  -- `mknod_dev`
  unfoldable pub mknod_dev : LinuxDevice → Exec os.World (Unit {0})
  unfolding get makedev
  mknod_dev d = do
    kind ← or_raise (get d.kind device_types) (error_code "invalid spec")
    path ← unwrap (from_second d.path)
    os.mknod path (kind + d.file_mode % 0o10000) (makedev (as_u64 d.major) (as_u64 d.minor))
    os.chown path d.uid d.gid

  -- `bind_dev`
  unfoldable pub bind_dev : LinuxDevice → Exec os.World (Unit {0})
  bind_dev d = do
    path ← unwrap (from_second d.path)
    fd ← os.open_rw path 0o644
    os.close fd
    os.nix_mount (some d.path) path none (single bind) none

  abbrev pub make_device : Bool → LinuxDevice → Exec os.World (Unit {0})
  make_device by_bind d = if by_bind then bind_dev d else mknod_dev d

  abbrev pub make_checked : Bool → LinuxDevice → Exec os.World (Unit {0})
  make_checked by_bind d = do
    raise_if (not (is_device_path d.path)) (error_code (d.path ++ " is not a valid device path"))
    make_device by_bind d

  -- `create_devices`; an error leaves the mask open
  unfoldable pub create_devices : List LinuxDevice → Bool → Exec os.World (Unit {0})
  unfolding for_each mknod_dev bind_dev is_device_path
  create_devices devices by_bind = do
    old ← os.umask 0
    for_each default_devices (make_device by_bind)
    for_each devices (make_checked by_bind)
    os.umask old
    pure tt
