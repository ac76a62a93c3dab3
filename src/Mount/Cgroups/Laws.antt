-- ===== src/Mount/Cgroups/Laws.antt =====
-- What `get_cgroup_mounts` returns for any table of the kernel.
use kata_rust_agent.Base.{
  String, ◌≡◌, refl, ◌⊎◌, inl, inr, Bool, true, some, List, [], ◌∷◌, any, All, All-append,
  any-append, str_eq, eq_iff, arith, Bool-cases, Option-cases,
}
use kata_rust_agent.Base.Text.{split}
use kata_rust_agent.Mount.Bare.{InitMount}
use kata_rust_agent.Mount.Cgroups.{
  cgroup_dir, cgroup_mount, subsystem_of, mount_of_line, scan_lines, last_mount, get_cgroup_mounts,
}

-- A mount of the cgroup root's own tmpfs, or of a subsystem at the directory that the table gives it.
abbrev pub IsPlaced : InitMount → Type 0
IsPlaced m =
    ((m.fstype ≡ "tmpfs") × (m.dest ≡ "/sys/fs/cgroup"))
    ⊎ ((name : String) × (cgroup_dir name ≡ some m.dest) × (m ≡ cgroup_mount name m.dest))

abbrev pub is_devices : InitMount → Bool
is_devices m = str_eq m.dest "/sys/fs/cgroup/devices"

-- what a line contributes
mount_of_line_lem :
    (line : String) (name : String) (m : InitMount)
    → mount_of_line line ≡ some (name, m)
    → (cgroup_dir name ≡ some m.dest) × (m ≡ cgroup_mount name m.dest)
unfolding mount_of_line
mount_of_line_lem line name m e = elim (Option-cases (subsystem_of (split 9 line))) [
  | inl none_named ↦ ground (arith, none_named)
  | inr (n, named) ↦ elim (Option-cases (cgroup_dir n)) [
    | inl unlisted ↦ ground (arith, named, unlisted)
    | inr (dir, listed) ↦ ground (arith, named, listed)
  ]
]

scan_lines-IsPlaced : (text : List String) → All IsPlaced (scan_lines text).1
unfolding scan_lines
scan_lines-IsPlaced [] = tt
scan_lines-IsPlaced (line ∷ rest) = elim (Option-cases (mount_of_line line)) [
  | inl e ↦ rw (e, scan_lines) (scan_lines-IsPlaced rest)
  | inr ((name, m), e) ↦
      rw (e, scan_lines)
        (
          inr (name, (mount_of_line_lem line name m e).0, (mount_of_line_lem line name m e).1),
          scan_lines-IsPlaced rest,
        )
]

devices_dir : cgroup_dir "devices" ≡ some "/sys/fs/cgroup/devices"
unfolding cgroup_dir
devices_dir = refl

mount_of_line-is_devices :
    (line : String) (name : String) (m : InitMount)
    → mount_of_line line ≡ some (name, m)
    → str_eq name "devices" ≡ true
    → is_devices m ≡ true
mount_of_line-is_devices line name m e d =
    let dir : cgroup_dir "devices" ≡ some m.dest =
      rw ((eq_iff name "devices").0 d) at (mount_of_line_lem line name m e).0 in
    (eq_iff m.dest "/sys/fs/cgroup/devices").1 (cc (dir, devices_dir))

scan_lines-is_devices :
    (text : List String) → (scan_lines text).0 ≡ true → any is_devices (scan_lines text).1 ≡ true
unfolding scan_lines
scan_lines-is_devices [] h = cc
scan_lines-is_devices (line ∷ rest) h = elim (Option-cases (mount_of_line line)) [
  | inl e ↦ rw (e, scan_lines) (scan_lines-is_devices rest (rw (e, scan_lines) at h))
  | inr ((name, m), e) ↦
      ground (arith, e, mount_of_line-is_devices line name m e, scan_lines-is_devices rest)
]

-- Every mount is a tmpfs on the cgroup root or the cgroup file system of a listed subsystem on that
-- subsystem's directory; and unless there is none at all, the devices subsystem is among them.
pub get_cgroup_mounts_lem :
    (text : List String)
    → All IsPlaced (get_cgroup_mounts text)
      × ((get_cgroup_mounts text ≡ []) ⊎ (any is_devices (get_cgroup_mounts text) ≡ true))
unfolding get_cgroup_mounts
get_cgroup_mounts_lem text = elim (Bool-cases (scan_lines text).0) [
  | inl found ↦ rw found (
    (
      inl (refl, refl),
      All-append IsPlaced (scan_lines text).1 (last_mount ∷ []) (scan_lines-IsPlaced text)
          (inl (refl, refl), tt),
    ),
    inr (
        any-append is_devices (scan_lines text).1 (last_mount ∷ [])
          (scan_lines-is_devices text found)),
  )
  | inr missing ↦ rw missing (tt, inl refl)
]
