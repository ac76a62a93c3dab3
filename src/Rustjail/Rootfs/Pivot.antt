-- ===== src/Rustjail/Rootfs/Pivot.antt =====
-- Making the root file system the root (`pivot_rootfs`, `parse_mount_table` and `ms_move_root` of
-- rustjail/src/mount.rs). What `scan_fmt!` reads from a line of mountinfo is a parameter.
use kata_rust_agent.Base.{
  ℕ, String, Bool, true, not, ◌&&◌, ◌||◌, none, some, List, [], ◌∷◌, ℤ, str_eq, starts_with,
  if◌then◌else◌,
}
use kata_rust_agent.Base.Text.{lines, split_text}
use kata_rust_agent.Base.Exec.{
  Exec, Outcome, ok, err, panic, Error, error_code, nix, einval, eperm, pure, raise, crash, attempt,
  lift, for_each, ◌>>=◌, ◌>>◌,
}
use kata_rust_agent.Os.{Os}
use kata_rust_agent.Os.Flags.{no_flags, single, union, slave, rec, move}

-- `Info`
pub record Info : Type 0 where
  pub id : ℤ
  pub parent : ℤ
  pub major : ℤ
  pub minor : ℤ
  pub root : String
  pub mount_point : String
  pub opts : String
  pub optional : String
  pub fstype : String
  pub source : String
  pub vfs_opts : String

-- what stands after " - " in a line of mountinfo
pub record Tail : Type 0 where
  pub fstype : String
  pub source : String
  pub vfs_opts : String

abbrev pub with_tail : Info → Tail → Info
with_tail i t = record i {
  optional = if not (str_eq i.optional "-") then i.optional else "";
  fstype = t.fstype;
  source = t.source;
  vfs_opts = t.vfs_opts;
}

module _ (scan_head : String → Outcome Info) (scan_tail : String → Outcome Tail) where
  -- the body of the loop of `parse_mount_table`; `scan_head` leaves the last three fields open
  unfoldable pub parse_line : String → Outcome Info
  unfolding split_text
  parse_line line = elim (scan_head line) [
    | ok i ↦ elim (split_text " - " line) [
      | _ ∷ tail ∷ [] ↦ elim (scan_tail tail) [
        | ok t ↦ ok (with_tail i t)
        | err e ↦ err e
        | panic ↦ panic
      ]
      | _ ↦ err (error_code "failed to parse mount info file")
    ]
    | err e ↦ err e
    | panic ↦ panic
  ]

  unfoldable pub parse_lines : List String → Outcome (List Info)
  unfolding parse_line
  parse_lines [] = ok []
  parse_lines (l ∷ ls) = elim (parse_line l) [
    | ok i ↦ elim (parse_lines ls) [ ok is ↦ ok (i ∷ is) | err e ↦ err e | panic ↦ panic ]
    | err e ↦ err e
    | panic ↦ panic
  ]

  module _ ⦃os : Os⦄ (display : Error → String) where
    -- `parse_mount_table`
    unfoldable pub parse_mount_table : Exec os.World (List Info)
    unfolding parse_lines lines
    parse_mount_table = do
      text ← (λ w. (os.read_to_string "/proc/self/mountinfo" w, w))
      lift (parse_lines (lines text))

    -- a file system that cannot be unmounted is covered, if it is the lack of privileges
    abbrev pub cover : String → Outcome (Unit {0}) → Exec os.World (Unit {0})
    cover point (ok _) = pure tt
    cover point (err (nix einval)) = os.nix_mount (some "tmpfs") point (some "tmpfs") no_flags none
    cover point (err (nix eperm)) = os.nix_mount (some "tmpfs") point (some "tmpfs") no_flags none
    cover point (err e) = raise (error_code (display e))
    cover point panic = crash

    -- the body of the loop of `ms_move_root`: proc and sysfs go, except below the root
    unfoldable pub hide_mount : String → Info → Exec os.World (Unit {0})
    hide_mount root info = do
      point ← (λ w. (os.absolutize info.mount_point w, w))
      if not (str_eq info.fstype "proc") && not (str_eq info.fstype "sysfs")
            || starts_with point root
          then pure tt
          else (do
            os.nix_mount none point none (union (single slave) (single rec)) none
            r ← attempt (os.umount_detach point)
            cover point r)

    -- `ms_move_root`
    unfoldable pub ms_move_root : String → Exec os.World Bool
    unfolding parse_mount_table for_each hide_mount
    ms_move_root rootfs = do
      os.chdir rootfs
      mount_infos ← parse_mount_table
      root ← (λ w. (os.absolutize rootfs w, w))
      for_each mount_infos (hide_mount root)
      os.nix_mount (some root) "/" none (single move) none
      os.chroot "."
      os.chdir "/"
      pure true

-- `defer!(unistd::close(fd).unwrap())`: after the rest of the block, whatever comes of it
abbrev pub closing : ⦃os : Os⦄ {A : Type 0} → ℕ → Exec os.World A → Exec os.World A
closing ⦃os⦄ fd m w =
    let (r, w') = m w in
    let (c, w'') = os.close fd w' in
    elim c [ ok _ ↦ (r, w'') | err e ↦ (panic, w'') | panic ↦ (panic, w'') ]

-- `pivot_rootfs`
unfoldable pub pivot_rootfs : ⦃os : Os⦄ → String → Exec os.World (Unit {0})
pivot_rootfs ⦃os⦄ path = do
  oldroot ← os.open_dir "/"
  closing oldroot (do
    newroot ← os.open_dir path
    closing newroot (do
      os.pivot_root path path
      os.umount_detach "/"
      os.fchdir newroot
      os.umask 0o022
      pure tt))
