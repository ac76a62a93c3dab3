-- ===== src/Tests/MountRuns.antt =====
-- Mount options, cgroup mounts and storages.
use kata_rust_agent.Base.{String, true, List, [], ◌∷◌, ◌≡◌, ◌⊎◌, any, All}
use kata_rust_agent.Mount.Cgroups.{get_cgroup_mounts}
use kata_rust_agent.Mount.Cgroups.Laws.{IsPlaced, is_devices, get_cgroup_mounts_lem}

abbrev cgroup_lines : List String
cgroup_lines =
    "#subsys_name\thierarchy\tnum_cgroups\tenabled" ∷ "cpu\t1\t1\t1" ∷ "devices\t2\t1\t1" ∷ []

get_cgroup_mounts_lem_example :
    All IsPlaced (get_cgroup_mounts cgroup_lines)
    × ((get_cgroup_mounts cgroup_lines ≡ [])
        ⊎ (any is_devices (get_cgroup_mounts cgroup_lines) ≡ true))
get_cgroup_mounts_lem_example = get_cgroup_mounts_lem cgroup_lines
