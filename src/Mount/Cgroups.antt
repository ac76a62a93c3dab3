-- ===== src/Mount/Cgroups.antt =====
-- `get_cgroup_mounts` and `cgroups_mount` of src/mount.rs: the cgroup file systems to mount, from the
-- kernel's table of subsystems.
pub mod Laws
use kata_rust_agent.Base.{
  String, Bool, true, false, not, ◌&&◌, ◌||◌, Option, none, some, List, [], ◌∷◌, ◌++◌, str_eq,
  starts_with, if◌then◌else◌,
}
use kata_rust_agent.Base.Dict.{Dict, get}
use kata_rust_agent.Base.Text.{split, lines, parse_u64}
use kata_rust_agent.Base.Exec.{Exec, Outcome, for_each, ◌>>=◌, ◌>>◌}
use kata_rust_agent.Os.{Os}
use kata_rust_agent.Mount.Bare.{InitMount, mount_to_rootfs}

-- `CGROUPS`
abbrev pub cgroups : Dict String
cgroups =
    ("cpu", "/sys/fs/cgroup/cpu")
    ∷ ("cpuacct", "/sys/fs/cgroup/cpuacct")
    ∷ ("blkio", "/sys/fs/cgroup/blkio")
    ∷ ("cpuset", "/sys/fs/cgroup/cpuset")
    ∷ ("memory", "/sys/fs/cgroup/memory")
    ∷ ("devices", "/sys/fs/cgroup/devices")
    ∷ ("freezer", "/sys/fs/cgroup/freezer")
    ∷ ("net_cls", "/sys/fs/cgroup/net_cls")
    ∷ ("perf_event", "/sys/fs/cgroup/perf_event")
    ∷ ("net_prio", "/sys/fs/cgroup/net_prio")
    ∷ ("hugetlb", "/sys/fs/cgroup/hugetlb")
    ∷ ("pids", "/sys/fs/cgroup/pids")
    ∷ ("rdma", "/sys/fs/cgroup/rdma")
    ∷ []

unfoldable pub cgroup_dir : String → Option String
unfolding get
cgroup_dir name = get name cgroups

abbrev pub is_number : String → Bool
is_number s = elim (parse_u64 s) [ none ↦ false | some _ ↦ true ]

-- The enabled subsystem that a line of the table names, if the line is well formed: at least four
-- fields, numbers in the second to the fourth, and no comment.
unfoldable pub subsystem_of : List String → Option String
unfolding parse_u64
subsystem_of (name ∷ hierarchy ∷ num ∷ enabled ∷ more) =
    if starts_with name "#" || str_eq enabled "0"
    then none
    else if is_number hierarchy && is_number num && is_number enabled
    then some name
    else none
subsystem_of _ = none

abbrev pub cgroup_mount : String → String → InitMount
cgroup_mount name dir = record {
  fstype = "cgroup";
  src = "cgroup";
  dest = dir;
  options = "nosuid" ∷ "nodev" ∷ "noexec" ∷ "relatime" ∷ name ∷ [];
}

-- the mount for one line, with the name of its subsystem
unfoldable pub mount_of_line : String → Option (String × InitMount)
mount_of_line line = elim (subsystem_of (split 9 line)) [
  | none ↦ none
  | some name ↦ elim (cgroup_dir name) [
    | none ↦ none
    | some dir ↦ some (name, cgroup_mount name dir)
  ]
]

-- the loop: whether the devices subsystem was seen, and the mounts in the order of the lines
unfoldable pub scan_lines : List String → Bool × List InitMount
unfolding mount_of_line
scan_lines [] = (false, [])
scan_lines (line ∷ rest) =
    let later = scan_lines rest in
    elim (mount_of_line line) [
      | none ↦ later
      | some (name, m) ↦ (str_eq name "devices" || later.0, m ∷ later.1)
    ]

abbrev pub first_mount : InitMount
first_mount = record {
  fstype = "tmpfs";
  src = "tmpfs";
  dest = "/sys/fs/cgroup";
  options = "nosuid" ∷ "nodev" ∷ "noexec" ∷ "mode=755" ∷ [];
}

abbrev pub last_mount : InitMount
last_mount = record {
  fstype = "tmpfs";
  src = "tmpfs";
  dest = "/sys/fs/cgroup";
  options = "remount" ∷ "ro" ∷ "nosuid" ∷ "nodev" ∷ "noexec" ∷ "mode=755" ∷ [];
}

-- `get_cgroup_mounts`, on the lines of the file
unfoldable pub get_cgroup_mounts : List String → List InitMount
unfolding scan_lines
get_cgroup_mounts text =
    let (has_device_cgroup, ms) = scan_lines text in
    if not has_device_cgroup then [] else first_mount ∷ ms ++ last_mount ∷ []

module _ ⦃os : Os⦄ where
  -- `cgroups_mount`
  unfoldable pub cgroups_mount : Exec os.World (Unit {0})
  unfolding get_cgroup_mounts lines mount_to_rootfs for_each
  cgroups_mount = do
    text ← λ w. (os.read_to_string "/proc/cgroups" w, w)
    for_each (get_cgroup_mounts (lines text)) mount_to_rootfs
    os.write "/sys/fs/cgroup/memory//memory.use_hierarchy" "1"
