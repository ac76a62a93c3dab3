-- ===== src/Rustjail/Cgroups/Totals.antt =====
-- The statistics of a container over all its cgroups, and the mounted subsystems
-- (rustjail/src/cgroups/fs/mod.rs: `get_stats` of `Blkio`, `HugeTLB` and `Manager`, `get_mounts`).
pub mod Laws
use Prim.Native.String.{◌++◌}
use kata_rust_agent.Base.{
  ℕ, zero, suc, String, Bool, true, false, not, ◌&&◌, ◌||◌, Option, none, some, List, [], ◌∷◌,
  str_eq, if◌then◌else◌,
}
use kata_rust_agent.Base.Dict.{Dict, get, put, has}
use kata_rust_agent.Base.Text.{split, split_text, lines}
use kata_rust_agent.Base.Exec.{
  Exec, Outcome, ok, err, panic, nix, enoent, pure, raise, crash, or_raise, lift, ◌>>=◌,
}
use kata_rust_agent.Os.{Os}
use kata_rust_agent.Rustjail.Container.{Manager}
use kata_rust_agent.Rustjail.Cgroups.{read_file, get_param_u64}
use kata_rust_agent.Rustjail.Cgroups.Stats.{
  ThrottlingData, CpuUsage, MemoryStats, PidsStats, BlkioStatsEntry, get_cpu_stats,
  get_cpuacct_stats, get_memory_stats, get_pids_stats, get_blkio_stat,
}
use kata_rust_agent.Rustjail.Cgroups.Manager.{get_paths}

pub record BlkioStats : Type 0 where
  pub io_service_bytes_recursive : List BlkioStatsEntry
  pub io_serviced_recursive : List BlkioStatsEntry
  pub io_queued_recursive : List BlkioStatsEntry
  pub io_service_time_recursive : List BlkioStatsEntry
  pub io_wait_time_recursive : List BlkioStatsEntry
  pub io_merged_recursive : List BlkioStatsEntry
  pub io_time_recursive : List BlkioStatsEntry
  pub sectors_recursive : List BlkioStatsEntry

pub record HugetlbStats : Type 0 where
  pub usage : ℕ
  pub max_usage : ℕ
  pub failcnt : ℕ

pub record CpuStats : Type 0 where
  pub cpu_usage : Option CpuUsage
  pub throttling_data : Option ThrottlingData

pub record CgroupStats : Type 0 where
  pub cpu_stats : Option CpuStats
  pub memory_stats : Option MemoryStats
  pub pids_stats : Option PidsStats
  pub blkio_stats : Option BlkioStats
  pub hugetlb_stats : Dict HugetlbStats

abbrev pub no_blkio : BlkioStats
no_blkio = record {
  io_service_bytes_recursive = [];
  io_serviced_recursive = [];
  io_queued_recursive = [];
  io_service_time_recursive = [];
  io_wait_time_recursive = [];
  io_merged_recursive = [];
  io_time_recursive = [];
  sectors_recursive = [];
}

-- `cpu_stats` of `Manager::get_stats`: none if there is neither part
abbrev pub cpu_stats_of : Option CpuUsage → Option ThrottlingData → Option CpuStats
cpu_stats_of none none = none
cpu_stats_of u t = some (record { cpu_usage = u; throttling_data = t })

-- `pre[4]`
abbrev pub fifth : List String → Option String
fifth (_ ∷ _ ∷ _ ∷ _ ∷ point ∷ _) = some point
fifth _ = none

-- the loop over the names of one line of `get_mounts`; a line without a mount point is a panic
unfoldable pub add_names :
    Dict String → Option String → List String → Dict String → Outcome (Dict String)
unfolding has put
add_names paths point [] m = ok m
add_names paths none (name ∷ names) m =
    if has name paths then panic else add_names paths none names m
add_names paths (some point) (name ∷ names) m =
    add_names paths (some point) names (if has name paths then put name point m else m)

-- the part of a line after the dash: the type of the file system, its source and its options
unfoldable pub add_cgroup :
    Dict String → Option String → List String → Dict String → Outcome (Dict String)
unfolding add_names split
add_cgroup paths point (kind ∷ _ ∷ names ∷ []) m =
    if not (str_eq kind "cgroup") && not (str_eq kind "cgroup2")
    then ok m
    else add_names paths point (split b',' names) m
add_cgroup paths point _ m = ok m

-- the body of the loop of `get_mounts`, on the two halves of a line
unfoldable pub add_mounts : Dict String → List String → Dict String → Outcome (Dict String)
unfolding add_cgroup split
add_mounts paths (pre ∷ post ∷ _) m = add_cgroup paths (fifth (split b' ' pre)) (split b' ' post) m
add_mounts paths _ m = panic

unfoldable pub mounts_of_lines : Dict String → List String → Dict String → Outcome (Dict String)
unfolding add_mounts split_text
mounts_of_lines paths [] m = ok m
mounts_of_lines paths (l ∷ ls) m = elim (add_mounts paths (split_text " - " l) m) [
  | ok m' ↦ mounts_of_lines paths ls m'
  | err e ↦ err e
  | panic ↦ panic
]

-- the loop of `get_param_key_value`
unfoldable pub key_values : List String → Dict String → Dict String
unfolding split put
key_values [] m = m
key_values (l ∷ ls) m = elim (split b' ' l) [
  | k ∷ v ∷ [] ↦ key_values ls (put k v m)
  | _ ↦ key_values ls m
]

module _ ⦃os : Os⦄ where
  -- `get_mounts`
  unfoldable pub get_mounts : Exec os.World (Dict String)
  unfolding get_paths mounts_of_lines lines
  get_mounts = do
    paths ← get_paths
    text ← (λ w. (os.read_to_string "/proc/self/mountinfo" w, w))
    lift (mounts_of_lines paths (lines text) [])

  -- `get_guest_cpuset`
  unfoldable pub get_guest_cpuset : Exec os.World String
  unfolding get_mounts get read_file
  get_guest_cpuset = do
    m ← get_mounts
    dir ← or_raise (get "cpuset" m) (nix enoent)
    read_file dir "cpuset.cpus"

  -- `get_param_key_value`
  unfoldable pub get_param_key_value : String → String → Exec os.World (Dict String)
  unfolding key_values lines
  get_param_key_value dir file = do
    text ← (λ w. (os.read_to_string (dir ++ "/" ++ file) w, w))
    pure (key_values (lines text) [])

  -- `Blkio::get_stats`; `lowercase` is `str::to_lowercase`
  unfoldable pub get_blkio_stats : (String → String) → String → Exec os.World BlkioStats
  unfolding get_blkio_stat
  get_blkio_stats lowercase dir = do
    let stat = get_blkio_stat lowercase dir
    entry ← stat "blkio.io_serviced_recursive"
    elim entry [
      | [] ↦ do
        bytes ← stat "blkio.throttle.io_service_bytes"
        serviced ← stat "blkio.throttle.io_serviced"
        pure (record no_blkio {
          io_service_bytes_recursive = bytes;
          io_serviced_recursive = serviced;
        })
      | _ ∷ _ ↦ do
        sectors ← stat "blkio.sectors_recursive"
        bytes ← stat "blkio.io_service_bytes_recursive"
        serviced ← stat "blkio.io_serviced_recursive"
        queued ← stat "blkio.io_queued_recursive"
        service_time ← stat "blkio.io_service_time_recursive"
        wait_time ← stat "blkio.io_wait_time_recursive"
        merged ← stat "blkio.io_merged_recursive"
        time ← stat "blkio.time_recursive"
        pure (record {
          io_service_bytes_recursive = bytes;
          io_serviced_recursive = serviced;
          io_queued_recursive = queued;
          io_service_time_recursive = service_time;
          io_wait_time_recursive = wait_time;
          io_merged_recursive = merged;
          io_time_recursive = time;
          sectors_recursive = sectors;
        })
    ]

  -- the loop of `HugeTLB::get_stats` over the page sizes
  unfoldable pub get_hugetlb_stats :
      List String → String → Dict HugetlbStats → Exec os.World (Dict HugetlbStats)
  unfolding get_param_u64 put
  get_hugetlb_stats [] dir h = pure h
  get_hugetlb_stats (size ∷ sizes) dir h = do
    usage ← get_param_u64 dir ("hugetlb." ++ size ++ ".usage_in_bytes")
    max_usage ← get_param_u64 dir ("hugetlb." ++ size ++ ".max_usage_in_bytes")
    failcnt ← get_param_u64 dir ("hugetlb." ++ size ++ ".failcnt")
    get_hugetlb_stats sizes dir
        (put size (record { usage = usage; max_usage = max_usage; failcnt = failcnt }) h)

  -- `if self.paths.get(name).is_some() { Some(stats(dir)?) } else { None }`
  abbrev pub of_subsystem :
      {A : Type 0} → Manager → String → (String → Exec os.World A) → Exec os.World (Option A)
  of_subsystem m name stats = elim (get name m.paths) [
    | none ↦ pure none
    | some dir ↦ do a ← stats dir; pure (some a)
  ]

  -- `Manager::get_stats`, with the page sizes of `HUGEPAGESIZES`
  unfoldable pub get_stats :
      (ℕ → ℕ) → (String → String) → List String → Manager → Exec os.World CgroupStats
  unfolding get get_cpuacct_stats get_cpu_stats get_memory_stats get_pids_stats get_blkio_stats
      get_hugetlb_stats
  get_stats in_ticks lowercase sizes m = do
    cpu_usage ← of_subsystem m "cpuacct" (get_cpuacct_stats in_ticks)
    throttling_data ← of_subsystem m "cpu" get_cpu_stats
    memory_stats ← of_subsystem m "memory" get_memory_stats
    pids_stats ← of_subsystem m "pids" get_pids_stats
    blkio_stats ← of_subsystem m "blkio" (get_blkio_stats lowercase)
    hugetlb_stats ← of_subsystem m "hugetlb" (λ dir. get_hugetlb_stats sizes dir [])
    pure (record {
      cpu_stats = cpu_stats_of cpu_usage throttling_data;
      memory_stats = memory_stats;
      pids_stats = pids_stats;
      blkio_stats = blkio_stats;
      hugetlb_stats = elim hugetlb_stats [ none ↦ [] | some h ↦ h ];
    })
