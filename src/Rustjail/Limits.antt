-- ===== src/Rustjail/Limits.antt =====
-- The limits and the statistics of a container (`set` and `stats` of rustjail/src/container.rs).
use kata_rust_agent.Base.{ℕ, String, true, Option, none, some, List}
use kata_rust_agent.Base.Exec.{Exec, pure, gets, unwrap, modify, ◌>>=◌, ◌>>◌}
use kata_rust_agent.Oci.{Linux, Spec}
use kata_rust_agent.Oci.Resources.{LinuxResources}
use kata_rust_agent.Os.{Os}
use kata_rust_agent.Rustjail.Container.{LinuxContainer}
use kata_rust_agent.Rustjail.Lifecycle.{Ctr, sys}
use kata_rust_agent.Rustjail.Cgroups.Manager.{set as set_groups}
use kata_rust_agent.Rustjail.Cgroups.Totals.{CgroupStats, get_stats}

abbrev pub with_resources : LinuxContainer → Spec → Linux → LinuxResources → LinuxContainer
with_resources c spec linux r = record c {
  config = record c.config {
    spec = some (record spec { linux = some (record linux { resources = some r }) });
  };
}

module _ ⦃os : Os⦄ where
  -- `LinuxContainer::set`; `depth` bounds the stack of `copy_parent`, which an update does not call
  unfoldable pub set_limits : ℕ → LinuxResources → Exec (Ctr os.World) (Unit {0})
  unfolding sys set_groups
  set_limits depth r = do
    c ← gets (λ s. s.ctr)
    elim c.cgroup_manager [ none ↦ pure tt | some m ↦ sys (set_groups depth m r true) ]
    spec ← unwrap c.config.spec
    linux ← unwrap spec.linux
    modify (λ s. record s { ctr = with_resources s.ctr spec linux r })

  -- `LinuxContainer::stats`
  unfoldable pub stats :
      (ℕ → ℕ) → (String → String) → List String → Exec (Ctr os.World) (Option CgroupStats)
  unfolding sys get_stats
  stats in_ticks lowercase sizes = do
    c ← gets (λ s. s.ctr)
    elim c.cgroup_manager [
      | none ↦ pure none
      | some m ↦ do s ← sys (get_stats in_ticks lowercase sizes m); pure (some s)
    ]
