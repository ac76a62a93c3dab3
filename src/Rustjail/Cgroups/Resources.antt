-- ===== src/Rustjail/Cgroups/Resources.antt =====
-- The resource limits that each subsystem writes (the `Subsystem` instances of
-- rustjail/src/cgroups/fs/mod.rs).
use Prim.Native.String.{◌++◌}
use kata_rust_agent.Base.{
  ℕ, String, Bool, not, Option, none, some, List, [], ◌∷◌, leb, ltb, ℤ, pos, negsuc, str_eq,
  if◌then◌else◌,
}
use kata_rust_agent.Base.Dict.{Dict, get}
use kata_rust_agent.Base.Print.{show_ℕ, show_ℤ}
use kata_rust_agent.Base.Exec.{Exec, pure, for_each, ◌>>◌}
use kata_rust_agent.Oci.Resources.{LinuxCpu, LinuxWeightDevice, LinuxThrottleDevice, LinuxResources}
use kata_rust_agent.Os.{Os}
use kata_rust_agent.Rustjail.Cgroups.{
  write_file, copy_parent, write_nonzero, try_write_nonzero, try_write_file, try_write,
  write_blkio_device,
}
use kata_rust_agent.Rustjail.Cgroups.Devices.{set_devices}

pub data Subsystem : Type 0 where
  cpuset cpu devices memory cpuacct pids blkio hugetlb net_cls net_prio perf_event freezer named :
      Subsystem

abbrev pub subsystems : Dict Subsystem
subsystems =
    ("cpuset", cpuset)
    ∷ ("cpu", cpu)
    ∷ ("devices", devices)
    ∷ ("memory", memory)
    ∷ ("cpuacct", cpuacct)
    ∷ ("pids", pids)
    ∷ ("blkio", blkio)
    ∷ ("hugetlb", hugetlb)
    ∷ ("net_cls", net_cls)
    ∷ ("net_prio", net_prio)
    ∷ ("perf_event", perf_event)
    ∷ ("freezer", freezer)
    ∷ ("name=systemd", named)
    ∷ []

-- `get_subsystem`
unfoldable pub get_subsystem : String → Option Subsystem
unfolding get
get_subsystem name = get name subsystems

abbrev pub cpus_of : Option LinuxCpu → String
cpus_of none = ""
cpus_of (some c) = c.cpus

abbrev pub mems_of : Option LinuxCpu → String
mems_of none = ""
mems_of (some c) = c.mems

-- `rate`, and the two texts of `weight`
unfoldable pub rate : LinuxThrottleDevice → String
unfolding show_ℕ show_ℤ
rate d = show_ℤ d.major ++ ":" ++ show_ℤ d.minor ++ " " ++ show_ℕ d.rate

unfoldable pub weight : LinuxWeightDevice → String × String
unfolding show_ℕ show_ℤ
weight d = (
  show_ℤ d.major ++ ":" ++ show_ℤ d.minor ++ " " ++ show_ℕ d.weight,
  show_ℤ d.major ++ ":" ++ show_ℤ d.minor ++ " " ++ show_ℕ d.leaf_weight,
)

-- the limit of `Pids::set`: without a positive one, none
abbrev pub show_limit : ℤ → String
show_limit (pos n) = if ltb 0 n then show_ℕ n else "max"
show_limit (negsuc n) = "max"

module _ ⦃os : Os⦄ (dir : String) where
  abbrev pub given : String → String → Exec os.World (Unit {0})
  given file v = if not (str_eq v "") then try_write_file dir file v else pure tt

  -- `CpuSet::set`; `depth` bounds the stack of `copy_parent`
  unfoldable pub set_cpuset : ℕ → LinuxResources → Bool → Exec os.World (Unit {0})
  unfolding copy_parent try_write_file
  set_cpuset depth r update = do
    if update
        then pure tt
        else (do copy_parent depth dir "cpuset.cpus"; copy_parent depth dir "cpuset.mems")
    given "cpuset.cpus" (cpus_of r.cpu)
    given "cpuset.mems" (mems_of r.cpu)

  -- `Cpu::set`
  unfoldable pub set_cpu : LinuxResources → Exec os.World (Unit {0})
  unfolding write_nonzero try_write_nonzero
  set_cpu r = elim r.cpu [
    | none ↦ pure tt
    | some c ↦ do
      try_write_nonzero dir "cpu.rt_period_us" (pos c.realtime_period)
      try_write_nonzero dir "cpu.rt_runtime_us" c.realtime_runtime
      write_nonzero dir "cpu.shares" (pos c.shares)
      write_nonzero dir "cpu.cfs_quota_us" c.quota
      write_nonzero dir "cpu.cfs_period_us" (pos c.period)
  ]

  -- `Memory::set`
  unfoldable pub set_memory : LinuxResources → Bool → Exec os.World (Unit {0})
  unfolding try_write write_file write_nonzero try_write_nonzero show_ℕ
  set_memory r update = elim r.memory [
    | none ↦ pure tt
    | some m ↦ do
      if update then pure tt else (do
        try_write dir "memory.kmem.limit_in_bytes" "1"
        try_write dir "memory.kmem.limit_in_bytes" "-1")
      write_nonzero dir "memory.limit_in_bytes" m.limit
      write_nonzero dir "memory.soft_limit_in_bytes" m.reservation
      try_write_nonzero dir "memory.memsw.limit_in_bytes" m.swap
      try_write_nonzero dir "memory.kmem.limit_in_bytes" m.kernel
      write_nonzero dir "memory.kmem.tcp.limit_in_bytes" m.kernel_tcp
      if leb m.swappiness 100
          then write_file dir "memory.swappiness" (show_ℕ m.swappiness)
          else pure tt
      if m.disable_oom_killer then write_file dir "memory.oom_control" "1" else pure tt
  ]

  -- `Pids::set`
  unfoldable pub set_pids : LinuxResources → Exec os.World (Unit {0})
  unfolding write_file show_ℕ
  set_pids r = elim r.pids [
    | none ↦ pure tt
    | some limit ↦ write_file dir "pids.max" (show_limit limit)
  ]

  abbrev pub throttle : String → List LinuxThrottleDevice → Exec os.World (Unit {0})
  throttle file l = for_each l (λ d. write_blkio_device dir file (rate d))

  -- `Blkio::set`
  unfoldable pub set_blkio : LinuxResources → Exec os.World (Unit {0})
  unfolding for_each rate weight write_nonzero write_blkio_device
  set_blkio r = elim r.block_io [
    | none ↦ pure tt
    | some b ↦ do
      write_nonzero dir "blkio.weight" (pos b.weight)
      write_nonzero dir "blkio.leaf_weight" (pos b.leaf_weight)
      for_each b.weight_device (λ d. do
        write_blkio_device dir "blkio.weight_device" (weight d).0
        write_blkio_device dir "blkio.leaf_weight_device" (weight d).1)
      throttle "blkio.throttle.read_bps_device" b.throttle_read_bps_device
      throttle "blkio.throttle.write_bps_device" b.throttle_write_bps_device
      throttle "blkio.throttle.read_iops_device" b.throttle_read_iops_device
      throttle "blkio.throttle.write_iops_device" b.throttle_write_iops_device
  ]

  -- `HugeTLB::set`
  unfoldable pub set_hugetlb : LinuxResources → Exec os.World (Unit {0})
  unfolding for_each write_file show_ℕ
  set_hugetlb r =
      for_each r.hugepage_limits
        (λ l. write_file dir ("hugetlb." ++ l.pagesize ++ ".limit_in_bytes") (show_ℕ l.limit))

  -- `NetCls::set` and `NetPrio::set`
  unfoldable pub set_net_cls : LinuxResources → Exec os.World (Unit {0})
  unfolding write_nonzero
  set_net_cls r = elim r.network [
    | none ↦ pure tt
    | some n ↦ write_nonzero dir "net_cls.classid" (pos n.class_id)
  ]

  unfoldable pub set_net_prio : LinuxResources → Exec os.World (Unit {0})
  unfolding for_each try_write_file show_ℕ
  set_net_prio r = elim r.network [
    | none ↦ pure tt
    | some n ↦
        for_each n.priorities
          (λ p. try_write_file dir "net_prio.ifpriomap" (p.name ++ " " ++ show_ℕ p.priority))
  ]

  -- the `set` of each subsystem
  unfoldable pub set_subsystem : ℕ → Subsystem → LinuxResources → Bool → Exec os.World (Unit {0})
  unfolding set_cpuset set_cpu set_devices set_memory set_pids set_blkio set_hugetlb set_net_cls
      set_net_prio
  set_subsystem depth cpuset r update = set_cpuset depth r update
  set_subsystem depth cpu r update = set_cpu r
  set_subsystem depth devices r update = set_devices dir r
  set_subsystem depth memory r update = set_memory r update
  set_subsystem depth cpuacct r update = pure tt
  set_subsystem depth pids r update = set_pids r
  set_subsystem depth blkio r update = set_blkio r
  set_subsystem depth hugetlb r update = set_hugetlb r
  set_subsystem depth net_cls r update = set_net_cls r
  set_subsystem depth net_prio r update = set_net_prio r
  set_subsystem depth perf_event r update = pure tt
  set_subsystem depth freezer r update = pure tt
  set_subsystem depth named r update = pure tt
