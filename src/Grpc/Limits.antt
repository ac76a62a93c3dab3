-- ===== src/Grpc/Limits.antt =====
-- The requests for a container's limits and statistics (`update_container` and `stats_container` of
-- src/grpc.rs).
pub mod Laws
use kata_rust_agent.Base.{ℕ, String, Option, none, some, List}
use kata_rust_agent.Base.Dict.{get}
use kata_rust_agent.Base.Exec.{
  Exec, Outcome, ok, err, panic, msg, pure, raise, crash, gets, unwrap, attempt, ◌>>=◌, ◌>>◌,
}
use kata_rust_agent.Oci.Resources.{LinuxResources}
use kata_rust_agent.Os.{Os}
use kata_rust_agent.Rustjail.Limits.{set_limits, stats}
use kata_rust_agent.Rustjail.Cgroups.Totals.{CgroupStats}
use kata_rust_agent.Sandbox.{get_container}
use kata_rust_agent.Sandbox.Agent.{Agent, on_container}

module _ ⦃os : Os⦄ where
  abbrev pub or_internal : {A : Type 0} → Outcome A → Exec (Agent os.World) A
  or_internal (ok a) = pure a
  or_internal (err e) = raise (msg "internal error")
  or_internal panic = crash

  -- `update_container`; a container that is not there is a panic
  unfoldable pub update_container :
      ℕ → String → Option LinuxResources → Exec (Agent os.World) (Unit {0})
  unfolding get_container on_container set_limits
  update_container depth cid res = do
    found ← gets (λ a. get_container cid a.sandbox)
    c ← unwrap found
    elim res [
      | none ↦ pure tt
      | some r ↦ do o ← attempt (on_container cid c (set_limits depth r)); or_internal o
    ]

  -- `stats_container`
  unfoldable pub stats_container :
      (ℕ → ℕ)
      → (String → String)
      → List String
      → String
      → Exec (Agent os.World) (Option CgroupStats)
  unfolding get_container on_container stats
  stats_container in_ticks lowercase sizes cid = do
    found ← gets (λ a. get_container cid a.sandbox)
    c ← unwrap found
    o ← attempt (on_container cid c (stats in_ticks lowercase sizes))
    or_internal o
