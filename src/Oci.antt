-- ===== src/Oci.antt =====
-- The OCI runtime specification that a request carries (protocols/protos/oci.proto): the messages and
-- the fields that the agent reads. A message field that may be absent is an `Option`.
pub mod Resources
pub mod Process
use kata_rust_agent.Base.{ℕ, String, Bool, Option, List, ℤ}
use kata_rust_agent.Base.Dict.{Dict}
use Process.{OciProcess}
use Resources.{LinuxResources}

pub record LinuxNamespace : Type 0 where
  pub kind : String
  pub path : String

pub record LinuxIdMapping : Type 0 where
  pub host_id : ℕ
  pub container_id : ℕ
  pub size : ℕ

pub record LinuxDevice : Type 0 where
  pub path : String
  pub kind : String
  pub major : ℤ
  pub minor : ℤ
  pub file_mode : ℕ
  pub uid : ℕ
  pub gid : ℕ

pub record Linux : Type 0 where
  pub uid_mappings : List LinuxIdMapping
  pub gid_mappings : List LinuxIdMapping
  pub sysctl : Dict String
  pub resources : Option LinuxResources
  pub cgroups_path : String
  pub namespaces : List LinuxNamespace
  pub devices : List LinuxDevice
  pub masked_paths : List String
  pub readonly_paths : List String
  pub rootfs_propagation : String

pub record Mount : Type 0 where
  pub destination : String
  pub source : String
  pub kind : String
  pub options : List String

pub record Hook : Type 0 where
  pub path : String
  pub args : List String
  pub env : List String
  pub timeout : ℤ

pub record Hooks : Type 0 where
  pub prestart : List Hook
  pub poststart : List Hook
  pub poststop : List Hook

-- `root` is the path of the message `Root`, and `root_readonly` its flag.
pub record Spec : Type 0 where
  pub version : String
  pub process : Option OciProcess
  pub root : Option String
  pub root_readonly : Bool
  pub hostname : String
  pub mounts : List Mount
  pub hooks : Option Hooks
  pub annotations : Dict String
  pub linux : Option Linux

-- `State` of oci/src/lib.rs, which a hook reads.
pub record OciState : Type 0 where
  pub version : String
  pub id : String
  pub status : String
  pub pid : ℤ
  pub bundle : String
  pub annotations : Dict String
