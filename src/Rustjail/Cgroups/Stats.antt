-- ===== src/Rustjail/Cgroups/Stats.antt =====
-- Statistics of a container's cgroups (the `get_stats` of rustjail/src/cgroups/fs/mod.rs).
use Prim.Native.String.{◌++◌}
use kata_rust_agent.Base.{
  ℕ, ◌*◌, ◌^◌, ◌%◌, String, Bool, ◌==◌, Option, none, some, List, [], ◌∷◌, str_eq, if◌then◌else◌,
}
use kata_rust_agent.Base.Dict.{Dict, get}
use kata_rust_agent.Base.Text.{split, trim, lines, contains, parse_u64}
use kata_rust_agent.Base.Exec.{
  Exec, Outcome, ok, err, panic, io, nix, einval, parse_int, not_found, pure, raise, crash, unwrap,
  or_raise, attempt, ◌>>=◌,
}
use kata_rust_agent.Os.{Os}
use kata_rust_agent.Rustjail.Cgroups.{read_file, get_param_key_u64, get_param_u64, get_percpu_usage}

pub record ThrottlingData : Type 0 where
  pub periods : ℕ
  pub throttled_periods : ℕ
  pub throttled_time : ℕ

pub record CpuUsage : Type 0 where
  pub total_usage : ℕ
  pub percpu_usage : List ℕ
  pub usage_in_kernelmode : ℕ
  pub usage_in_usermode : ℕ

pub record MemoryData : Type 0 where
  pub usage : ℕ
  pub max_usage : ℕ
  pub failcnt : ℕ
  pub limit : ℕ

pub record MemoryStats : Type 0 where
  pub cache : ℕ
  pub usage : Option MemoryData
  pub swap_usage : Option MemoryData
  pub kernel_usage : Option MemoryData
  pub use_hierarchy : Bool
  pub stats : Dict ℕ

pub record PidsStats : Type 0 where
  pub current : ℕ
  pub limit : ℕ

pub record BlkioStatsEntry : Type 0 where
  pub major : ℕ
  pub minor : ℕ
  pub op : String
  pub value : ℕ

-- the entry of one line of a blkio file; `lowercase` is `str::to_lowercase`
abbrev pub entry : Option ℕ → Option ℕ → Option ℕ → String → Outcome (Option BlkioStatsEntry)
entry (some value) (some major) (some minor) op =
    ok (some (record { major = major; minor = minor; op = op; value = value }))
entry _ _ _ op = err parse_int

abbrev pub device_entry : List String → String → Option ℕ → Outcome (Option BlkioStatsEntry)
device_entry (major ∷ minor ∷ []) op value = entry value (parse_u64 major) (parse_u64 minor) op
device_entry _ op none = err parse_int
device_entry _ op (some value) = err (nix einval)

unfoldable pub blkio_line : (String → String) → List String → Outcome (Option BlkioStatsEntry)
unfolding split parse_u64
blkio_line lowercase (dev ∷ op ∷ value ∷ more) = device_entry (split b':' dev) op (parse_u64 value)
blkio_line lowercase (total ∷ value ∷ []) =
    if str_eq (lowercase total) "total" then ok none else err (nix einval)
blkio_line lowercase _ = err (nix einval)

-- the loop of `get_blkio_stat`
unfoldable pub blkio_lines : (String → String) → List String → Outcome (List BlkioStatsEntry)
unfolding blkio_line split
blkio_lines lowercase [] = ok []
blkio_lines lowercase (l ∷ ls) =
    let rest = blkio_lines lowercase ls in
    elim (blkio_line lowercase (split b' ' l)) [
      | ok none ↦ rest
      | ok (some e) ↦ elim rest [ ok es ↦ ok (e ∷ es) | err x ↦ err x | panic ↦ panic ]
      | err x ↦ err x
      | panic ↦ panic
    ]

module _ ⦃os : Os⦄ where
  -- `Cpu::get_stats`: a key that is not there is a panic
  unfoldable pub get_cpu_stats : String → Exec os.World ThrottlingData
  unfolding get_param_key_u64 get
  get_cpu_stats dir = do
    h ← get_param_key_u64 dir "cpu.stat"
    periods ← unwrap (get "nr_periods" h)
    throttled_periods ← unwrap (get "nr_throttled" h)
    throttled_time ← unwrap (get "throttled_time" h)
    pure (record {
      periods = periods;
      throttled_periods = throttled_periods;
      throttled_time = throttled_time;
    })

  -- `CpuAcct::get_stats`; `in_ticks` divides by `CLOCK_TICKS` in `f64`
  unfoldable pub get_cpuacct_stats : (ℕ → ℕ) → String → Exec os.World CpuUsage
  unfolding get_param_key_u64 get_param_u64 get_percpu_usage get
  get_cpuacct_stats in_ticks dir = do
    h ← get_param_key_u64 dir "cpuacct.stat"
    user ← unwrap (get "user" h)
    system ← unwrap (get "system" h)
    total ← get_param_u64 dir "cpuacct.usage"
    percpu ← get_percpu_usage dir "cpuacct.usage_percpu"
    pure (record {
      total_usage = total;
      percpu_usage = percpu;
      usage_in_kernelmode = in_ticks ((system * 1000000000) % 2 ^ 64);
      usage_in_usermode = in_ticks ((user * 1000000000) % 2 ^ 64);
    })

  -- `get_memory_data`
  unfoldable pub get_memory_data : String → String → Exec os.World MemoryData
  unfolding get_param_u64
  get_memory_data dir sub = do
    let base = if str_eq sub "" then "memory." else "memory." ++ sub ++ "."
    usage ← get_param_u64 dir (base ++ "usage_in_bytes")
    max_usage ← get_param_u64 dir (base ++ "max_usage_in_bytes")
    failcnt ← get_param_u64 dir (base ++ "failcnt")
    limit ← get_param_u64 dir (base ++ "limit_in_bytes")
    pure (record { usage = usage; max_usage = max_usage; failcnt = failcnt; limit = limit })

  -- `get_exist_memory_data`: files that are not there are no error
  unfoldable pub get_exist_memory_data : String → String → Exec os.World (Option MemoryData)
  unfolding get_memory_data
  get_exist_memory_data dir sub = do
    r ← attempt (get_memory_data dir sub)
    elim r [
      | ok d ↦ pure (some d)
      | err (io not_found) ↦ pure none
      | err e ↦ raise e
      | panic ↦ crash
    ]

  -- `Memory::get_stats`
  unfoldable pub get_memory_stats : String → Exec os.World MemoryStats
  unfolding get_param_key_u64 get_param_u64 get_exist_memory_data get
  get_memory_stats dir = do
    h ← get_param_key_u64 dir "memory.stat"
    cache ← unwrap (get "cache" h)
    value ← get_param_u64 dir "memory.use_hierarchy"
    usage ← get_exist_memory_data dir ""
    swap_usage ← get_exist_memory_data dir "memsw"
    kernel_usage ← get_exist_memory_data dir "kmem"
    pure (record {
      cache = cache;
      usage = usage;
      swap_usage = swap_usage;
      kernel_usage = kernel_usage;
      use_hierarchy = value == 1;
      stats = h;
    })

  -- `Pids::get_stats`: no limit is 0
  unfoldable pub get_pids_stats : String → Exec os.World PidsStats
  unfolding get_param_u64 read_file contains parse_u64 trim
  get_pids_stats dir = do
    current ← get_param_u64 dir "pids.current"
    c ← read_file dir "pids.max"
    limit ← if contains c "max" then pure 0 else or_raise (parse_u64 (trim c)) parse_int
    pure (record { current = current; limit = limit })

  -- `get_blkio_stat`
  unfoldable pub get_blkio_stat :
      (String → String) → String → String → Exec os.World (List BlkioStatsEntry)
  unfolding read_file blkio_lines lines
  get_blkio_stat lowercase dir file = do
    text ← read_file dir file
    λ w. (blkio_lines lowercase (lines text), w)
