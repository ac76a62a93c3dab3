-- ===== src/Oci/Process.antt =====
-- The process of a specification (protocols/protos/oci.proto, `Process`): the fields that the agent
-- reads.
use kata_rust_agent.Base.{ℕ, ℤ, String, Bool, Option, List}

pub record User : Type 0 where
  pub uid : ℕ
  pub gid : ℕ
  pub additional_gids : List ℕ

pub record LinuxCapabilities : Type 0 where
  pub bounding : List String
  pub effective : List String
  pub inheritable : List String
  pub permitted : List String
  pub ambient : List String

pub record PosixRlimit : Type 0 where
  pub kind : String
  pub hard : ℕ
  pub soft : ℕ

pub record OciProcess : Type 0 where
  pub terminal : Bool
  pub user : Option User
  pub args : List String
  pub env : List String
  pub cwd : String
  pub capabilities : Option LinuxCapabilities
  pub rlimits : List PosixRlimit
  pub no_new_privileges : Bool
  pub oom_score_adj : ℤ
