-- ===== src/Tests/ValidatorRuns.antt =====
-- A configuration that is accepted, and a kernel parameter that is not; the cgroups of a container.
use kata_rust_agent.Base.{String, [], ◌∷◌, ◌≡◌}
use kata_rust_agent.Base.Dict.{Dict, get}
use kata_rust_agent.Rustjail.Container.{Manager}
use kata_rust_agent.Rustjail.Cgroups.Manager.{group_dirs}
use kata_rust_agent.Rustjail.Cgroups.Manager.Laws.{expected_dir, group_dirs_lem}

abbrev mounts : Dict String
mounts = ("cpu", "/sys/fs/cgroup/cpu") ∷ ("freezer", "/sys/fs/cgroup/freezer") ∷ []

abbrev rels : Dict String
rels = ("cpu", "/") ∷ ("freezer", "/agent") ∷ ("pids", "/") ∷ []

group_dirs_lem_example :
    get "freezer" (group_dirs "/c" mounts rels)
    ≡ expected_dir "/c" (get "freezer" mounts) (get "freezer" rels)
group_dirs_lem_example = group_dirs_lem "/c" "freezer" mounts rels

abbrev manager : Manager
manager = record {
  paths = ("freezer", "/sys/fs/cgroup/freezer/c") ∷ [];
  mounts = mounts;
  rels = rels;
  cpath = "/c";
}
