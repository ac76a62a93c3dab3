-- ===== src/Rustjail/Rootfs.antt =====
-- The root file system of a container (rustjail/src/mount.rs): mount options, one mount, and the
-- paths that are hidden or made read-only. The log lines of that file are left out; where one
-- unwraps the error number of a failure, a failure without a number is a panic.
pub mod Placed
pub mod Options
pub mod Devices
pub mod Cgroups
pub mod Setup
pub mod Pivot
use Prim.Native.Char.{code}
use Prim.Native.String.{◌++◌}
use kata_rust_agent.Base.{
  ℕ, String, Bool, true, false, not, ◌&&◌, ◌||◌, Option, none, some, List, [], ◌∷◌, ltb, str_eq,
  starts_with, if◌then◌else◌, any,
}
use kata_rust_agent.Base.Dict.{Dict, get}
use kata_rust_agent.Base.Text.{contains}
use kata_rust_agent.Base.Exec.{
  Exec, Outcome, ok, err, panic, Error, nix, einval, enoent, enotdir, pure, raise, crash, unwrap,
  attempt, raise_if, ◌>>=◌, ◌>>◌,
}
use kata_rust_agent.Oci.{Mount}
use kata_rust_agent.Os.{Os}
use kata_rust_agent.Os.Flags.{
  Flag, MsFlags, no_flags, single, union, rdonly, nosuid, nodev, noexec, synchronous, dirsync,
  remount, mandlock, noatime, nodiratime, bind, rec, unbindable, private, shared, slave, relatime,
  strictatime, move,
}

-- `&s[1..]`: a panic unless the first character is one byte
abbrev pub from_second : String → Option String
from_second String.[] = none
from_second (String.◌∷◌ c s) = if ltb (code c) 128 then some s else none

-- an absolute path without ".."
unfoldable pub is_plain : String → Bool
unfolding contains
is_plain path = starts_with path "/" && not (contains path "..")

-- the flags that a bind mount takes without being mounted again
abbrev pub at_once : MsFlags
at_once rec = true
at_once remount = true
at_once bind = true
at_once private = true
at_once shared = true
at_once slave = true
at_once _ = false

abbrev pub all_flags : List Flag
all_flags =
    rdonly ∷ nosuid ∷ nodev ∷ noexec ∷ synchronous ∷ dirsync ∷ remount ∷ mandlock ∷ noatime
    ∷ nodiratime ∷ bind ∷ rec ∷ unbindable ∷ private ∷ shared ∷ slave ∷ relatime ∷ strictatime
    ∷ move ∷ []

-- the condition on which `mount_from` mounts again
unfoldable pub needs_remount : MsFlags → Bool
needs_remount flags = flags bind && any (λ f. flags f && not (at_once f)) all_flags

module _ ⦃os : Os⦄ where
  -- an error of a system call that is logged with its number and returned
  abbrev pub logged : Outcome (Unit {0}) → Exec os.World (Unit {0})
  logged (ok _) = pure tt
  logged (err (nix e)) = raise (nix e)
  logged (err _) = crash
  logged panic = crash

  abbrev pub or_log : Exec os.World (Unit {0}) → Exec os.World (Unit {0})
  or_log m = do r ← attempt m; logged r

  -- the source of `mount_from`, once the target is made
  unfoldable pub prepare : Mount → String → Exec os.World String
  prepare m dest =
      if str_eq m.kind "bind"
      then (do
        src ← (λ w. (os.canonicalize m.source w, w))
        file ← (λ w. (ok (os.is_file src w), w))
        dir ← if file then unwrap (os.parent dest) else pure dest
        attempt (os.create_dir_all dir)
        if file then (do attempt (os.touch dest); pure src) else pure src)
      else (do attempt (os.create_dir_all dest); pure m.source)

  -- `mount_from`
  unfoldable pub mount_from : Mount → String → MsFlags → String → Exec os.World (Unit {0})
  unfolding prepare needs_remount
  mount_from m rootfs flags text = do
    let dest = rootfs ++ m.destination
    src ← prepare m dest
    or_log (os.nix_mount (some src) dest (some m.kind) flags (some text))
    if needs_remount flags
        then or_log (os.nix_mount (some dest) dest none (union flags (single remount)) none)
        else pure tt

  -- `mask_path`: a path that is not there needs no mask
  abbrev pub hide : String → Exec os.World (Unit {0})
  hide path = do
    r ← attempt (os.nix_mount (some "/dev/null") path none (single bind) none)
    elim r [
      | ok _ ↦ pure tt
      | err (nix enoent) ↦ pure tt
      | err (nix enotdir) ↦ pure tt
      | err e ↦ raise e
      | panic ↦ crash
    ]

  unfoldable pub mask_path : String → Exec os.World (Unit {0})
  unfolding is_plain
  mask_path path = do raise_if (not (is_plain path)) (nix einval); hide path

  -- `readonly_path`
  abbrev pub protect : String → Exec os.World (Unit {0})
  protect path = do
    src ← unwrap (from_second path)
    r ← attempt (os.nix_mount (some src) path none (union (single bind) (single rec)) none)
    elim r [
      | ok _ ↦
          os.nix_mount (some src) src none
            (union (union (single bind) (single rec)) (union (single rdonly) (single remount))) none
      | err (nix enoent) ↦ pure tt
      | err e ↦ raise e
      | panic ↦ crash
    ]

  unfoldable pub readonly_path : String → Exec os.World (Unit {0})
  unfolding is_plain
  readonly_path path = do raise_if (not (is_plain path)) (nix einval); protect path
