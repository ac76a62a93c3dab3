-- ===== src/Oci/Resources.antt =====
-- The resource limits of a container (protocols/protos/oci.proto, `LinuxResources`).
use kata_rust_agent.Base.{ℕ, String, Bool, Option, List, ℤ}

pub record LinuxDeviceCgroup : Type 0 where
  pub allow : Bool
  pub kind : String
  pub major : ℤ
  pub minor : ℤ
  pub access : String

pub record LinuxMemory : Type 0 where
  pub limit : ℤ
  pub reservation : ℤ
  pub swap : ℤ
  pub kernel : ℤ
  pub kernel_tcp : ℤ
  pub swappiness : ℕ
  pub disable_oom_killer : Bool

pub record LinuxCpu : Type 0 where
  pub shares : ℕ
  pub quota : ℤ
  pub period : ℕ
  pub realtime_runtime : ℤ
  pub realtime_period : ℕ
  pub cpus : String
  pub mems : String

pub record LinuxWeightDevice : Type 0 where
  pub major : ℤ
  pub minor : ℤ
  pub weight : ℕ
  pub leaf_weight : ℕ

pub record LinuxThrottleDevice : Type 0 where
  pub major : ℤ
  pub minor : ℤ
  pub rate : ℕ

pub record LinuxBlockIo : Type 0 where
  pub weight : ℕ
  pub leaf_weight : ℕ
  pub weight_device : List LinuxWeightDevice
  pub throttle_read_bps_device : List LinuxThrottleDevice
  pub throttle_write_bps_device : List LinuxThrottleDevice
  pub throttle_read_iops_device : List LinuxThrottleDevice
  pub throttle_write_iops_device : List LinuxThrottleDevice

pub record LinuxInterfacePriority : Type 0 where
  pub name : String
  pub priority : ℕ

pub record LinuxNetwork : Type 0 where
  pub class_id : ℕ
  pub priorities : List LinuxInterfacePriority

pub record LinuxHugepageLimit : Type 0 where
  pub pagesize : String
  pub limit : ℕ

-- `pids` is the limit of the message `LinuxPids`.
pub record LinuxResources : Type 0 where
  pub devices : List LinuxDeviceCgroup
  pub memory : Option LinuxMemory
  pub cpu : Option LinuxCpu
  pub pids : Option ℤ
  pub block_io : Option LinuxBlockIo
  pub hugepage_limits : List LinuxHugepageLimit
  pub network : Option LinuxNetwork
