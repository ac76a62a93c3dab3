-- ===== src/Rustjail/Cgroups/Manager/Laws.antt =====
-- The directories of a container's cgroups, and the states that `freeze` accepts.
use Prim.Native.String.{◌++◌}
use kata_rust_agent.Base.{
  String, Bool, not, ◌||◌, Option, none, some, [], ◌∷◌, ◌≡◌, refl, sym, ap, ◌∙◌, inl, inr,
  Bool-cases, Option-cases, str_eq, eq_iff, if◌then◌else◌,
}
use kata_rust_agent.Base.Dict.{Dict, get, get_cons, get-put}
use kata_rust_agent.Base.Exec.{Exec, ok, err, nix, einval, pure, raise_if}
use kata_rust_agent.Os.{Os}
use kata_rust_agent.Rustjail.Container.{Manager}
use kata_rust_agent.Rustjail.Cgroups.{write_file}
use kata_rust_agent.Rustjail.Cgroups.Manager.{group_dir, group_dirs, freeze}

-- the container's path below the agent's own group, where that is not the root
abbrev pub below_own : String → String → String
below_own rel cpath = if str_eq rel "/" then cpath else rel ++ cpath

-- the directory of a subsystem that the agent is in and that is mounted
abbrev pub expected_dir : String → Option String → Option String → Option String
expected_dir cpath none rel = none
expected_dir cpath (some mnt) none = none
expected_dir cpath (some mnt) (some rel) = some (mnt ++ below_own rel cpath)

group_dir_lem : (mnt rel cpath : String) → group_dir mnt rel cpath ≡ mnt ++ below_own rel cpath
unfolding group_dir
group_dir_lem mnt rel cpath = elim (Bool-cases (str_eq rel "/")) [
  | inl root ↦ rw root refl
  | inr other ↦ rw other refl
]

no_rel : (cpath : String) (mnt : Option String) → expected_dir cpath mnt none ≡ none
no_rel cpath none = refl
no_rel cpath (some m) = refl

-- The container has a directory in exactly those subsystems that the agent is in and that are
-- mounted: below the mount point the agent's own group, unless that is the root, and the container's
-- path.
pub group_dirs_lem :
    (cpath key : String) (mounts rels : Dict String)
    → get key (group_dirs cpath mounts rels) ≡ expected_dir cpath (get key mounts) (get key rels)
unfolding group_dirs
group_dirs_lem cpath key mounts [] = unfold get in sym (no_rel cpath (get key mounts))
group_dirs_lem cpath key mounts ((k, rel) ∷ rels) =
    let ih = group_dirs_lem cpath key mounts rels in
    rw (get_cons k key rel rels) (elim (Bool-cases (str_eq k key)) [
      | inl same ↦ elim (Option-cases (get k mounts)) [
        | inl gone ↦
            let none_there : get key mounts ≡ none = rw ((eq_iff k key).0 same) at gone in
            rw (gone, group_dirs)
              (rw (same, none_there)
                (ih ∙ ap (λ o. expected_dir cpath o (get key rels)) none_there))
        | inr (mnt, there) ↦
            let there' : get key mounts ≡ some mnt = rw ((eq_iff k key).0 same) at there in
            rw (there, group_dirs)
              (rw
                (
                  get-put k key (group_dir mnt rel cpath) (group_dirs cpath mounts rels),
                  same,
                  there',
                )
                (ap some (group_dir_lem mnt rel cpath)))
      ]
      | inr differ ↦ elim (Option-cases (get k mounts)) [
        | inl gone ↦ rw (gone, group_dirs) (rw differ ih)
        | inr (mnt, there) ↦
            rw (there, group_dirs)
              (rw (get-put k key (group_dir mnt rel cpath) (group_dirs cpath mounts rels), differ)
                ih)
      ]
    ])

module _ ⦃os : Os⦄ (m : Manager) (state : String) (w : os.World) where
  -- the states that mean something, and none
  abbrev pub is_known : Bool
  is_known = str_eq state "THAWED" || str_eq state "FROZEN" || str_eq state ""

  -- the state in the freezer group, for a container that has one
  abbrev pub write_state : Option String → Exec os.World (Unit {0})
  write_state none = pure tt
  write_state (some dir) = write_file dir "freezer.state" state

  by_state :
      (o : Option String)
      → (if str_eq state "THAWED" || str_eq state "FROZEN"
            then write_state o
            else raise_if (not (str_eq state "")) (nix einval))
          w
        ≡ (if not is_known
            then (err (nix einval), w)
            else if str_eq state ""
            then (ok tt, w)
            else write_state o w)
  by_state o = elim (Bool-cases (str_eq state "")) [
    | inl e ↦ rw ((eq_iff state "").0 e) refl
    | inr full ↦ elim (Bool-cases (str_eq state "THAWED" || str_eq state "FROZEN")) [
      | inl e ↦ rw (e, full) refl
      | inr e ↦ rw (e, full) refl
    ]
  ]

  -- `freeze` answers EINVAL to a state that is neither of the two nor empty, and changes nothing
  -- then. It writes the state only for a container with a freezer group, and does nothing otherwise.
  pub freeze_lem : freeze m state w ≡ (
      if not is_known
      then (err (nix einval), w)
      else if str_eq state ""
      then (ok tt, w)
      else write_state (get "freezer" m.paths) w)
  unfolding freeze
  freeze_lem = by_state (get "freezer" m.paths)
