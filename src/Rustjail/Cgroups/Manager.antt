-- ===== src/Rustjail/Cgroups/Manager.antt =====
-- The cgroup manager of a container (`Manager` of rustjail/src/cgroups/fs/mod.rs).
pub mod Laws
use Prim.Native.String.{◌++◌}
use kata_rust_agent.Base.{
  ℕ, String, Bool, true, false, not, ◌&&◌, ◌||◌, Option, none, some, List, [], ◌∷◌, ℤ, str_eq,
  starts_with, if◌then◌else◌,
}
use kata_rust_agent.Base.Dict.{Dict, get, put, has}
use kata_rust_agent.Base.Print.{show_ℤ}
use kata_rust_agent.Base.Text.{split, lines}
use kata_rust_agent.Base.Exec.{
  Exec, Outcome, ok, err, panic, nix, einval, enoent, pure, raise, or_raise, attempt, raise_if,
  for_each, ◌>>=◌, ◌>>◌,
}
use kata_rust_agent.Oci.Resources.{LinuxResources}
use kata_rust_agent.Os.{Os}
use kata_rust_agent.Rustjail.Container.{Manager}
use kata_rust_agent.Rustjail.Cgroups.{write_file, read_file}
use kata_rust_agent.Rustjail.Cgroups.Resources.{get_subsystem, set_subsystem}

abbrev pub put_all : String → List String → Dict String → Dict String
put_all path [] m = m
put_all path (k ∷ ks) m = put_all path ks (put k path m)

-- the body of the loop of `get_paths`, on the fields of one line
unfoldable pub add_path : List String → Dict String → Dict String
unfolding split put
add_path (id ∷ keys ∷ path ∷ []) m = put_all path (split b',' keys) m
add_path _ m = m

unfoldable pub paths_of : List String → Dict String → Dict String
unfolding add_path split
paths_of [] m = m
paths_of (l ∷ ls) m = paths_of ls (add_path (split b':' l) m)

-- the loop of `Manager::new`: a subsystem's directory is the container's path below the agent's own
-- group, below the mount point
unfoldable pub group_dir : String → String → String → String
group_dir mnt rel cpath = if str_eq rel "/" then mnt ++ cpath else mnt ++ rel ++ cpath

unfoldable pub group_dirs : String → Dict String → Dict String → Dict String
unfolding group_dir get put
group_dirs cpath mounts [] = []
group_dirs cpath mounts ((key, rel) ∷ rels) =
    let rest = group_dirs cpath mounts rels in
    elim (get key mounts) [ none ↦ rest | some mnt ↦ put key (group_dir mnt rel cpath) rest ]

-- the directories that `update_cpuset_path` goes through below `dir`, one for each part of a path
unfoldable pub below : String → List String → List String
below dir [] = []
below dir (d ∷ ds) =
    let down = dir ++ "/" ++ d in
    let deeper = below down ds in
    let here = below dir ds in if str_eq d "" then here else down ∷ deeper

-- where that ends
unfoldable pub bottom : String → List String → String
bottom dir [] = dir
bottom dir (d ∷ ds) =
    let deeper = bottom (dir ++ "/" ++ d) ds in
    let here = bottom dir ds in if str_eq d "" then here else deeper

module _ ⦃os : Os⦄ where
  -- `get_paths`
  unfoldable pub get_paths : Exec os.World (Dict String)
  unfolding paths_of lines
  get_paths w = elim (os.read_to_string "/proc/self/cgroup" w) [
    | ok text ↦ (ok (paths_of (lines text) []), w)
    | err e ↦ (err e, w)
    | panic ↦ (panic, w)
  ]

  -- `Manager::new`, with the mounts of `get_mounts`
  unfoldable pub new : Exec os.World (Dict String) → String → Exec os.World Manager
  unfolding get_paths group_dirs
  new get_mounts cpath = do
    raise_if (not (starts_with cpath "/")) (nix einval)
    paths ← get_paths
    mounts ← get_mounts
    pure (record {
      paths = group_dirs cpath mounts paths;
      mounts = mounts;
      rels = paths;
      cpath = cpath;
    })

  -- `apply`
  unfoldable pub apply : Manager → ℤ → Exec os.World (Unit {0})
  unfolding for_each write_file show_ℤ
  apply m pid =
      for_each m.paths (λ (e : String × String). write_file e.1 "cgroup.procs" (show_ℤ pid))

  set_entry : ℕ → LinuxResources → Bool → String × String → Exec os.World (Unit {0})
  unfolding get_subsystem set_subsystem
  set_entry depth r update e = do
    attempt (os.create_dir_all e.1)
    sub ← or_raise (get_subsystem e.0) (nix einval)
    set_subsystem e.1 depth sub r update

  -- `set`
  unfoldable pub set : ℕ → Manager → LinuxResources → Bool → Exec os.World (Unit {0})
  unfolding for_each set_entry
  set depth m r update = for_each m.paths (set_entry depth r update)

  -- `freeze`
  unfoldable pub freeze : Manager → String → Exec os.World (Unit {0})
  unfolding get write_file
  freeze m state =
      if str_eq state "THAWED" || str_eq state "FROZEN"
      then elim (get "freezer" m.paths) [
        | none ↦ pure tt
        | some dir ↦ write_file dir "freezer.state" state
      ]
      else raise_if (not (str_eq state "")) (nix einval)

  -- `destroy`: the manager after it; an error keeps every path, also of the groups that are gone
  unfoldable pub destroy : Manager → Exec os.World Manager
  unfolding for_each
  destroy m = do
    for_each m.paths (λ (e : String × String). os.remove_dir_all e.1)
    pure (record m { paths = [] })

  -- `update_cpuset_path`
  unfoldable pub update_cpuset_path : Manager → String → Exec os.World (Unit {0})
  unfolding get split below bottom for_each write_file
  update_cpuset_path m cpuset = do
    root ← or_raise (get "cpuset" m.mounts) (nix enoent)
    rel ← or_raise (get "cpuset" m.rels) (nix enoent)
    let rels = split b'/' rel
    for_each (below root rels) (λ dir. write_file dir "cpuset.cpus" cpuset)
    for_each (below (bottom root rels) (split b'/' m.cpath))
        (λ dir. write_file dir "cpuset.cpus" cpuset)
