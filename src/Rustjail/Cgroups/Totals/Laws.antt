-- ===== src/Rustjail/Cgroups/Totals/Laws.antt =====
-- The mounted subsystems are the agent's own (`get_mounts` of rustjail/src/cgroups/fs/mod.rs).
use mathlib.Core.Path.{subst}
use kata_rust_agent.Base.{
  String, true, not, ◌&&◌, Option, none, some, List, [], ◌∷◌, ◌≡◌, arith, ap, inl, inr, Bool-cases,
  str_eq, eq_iff, if◌then◌else◌,
}
use kata_rust_agent.Base.Dict.{Dict, get, put, has, get-put}
use kata_rust_agent.Base.Text.{split, split_text, lines}
use kata_rust_agent.Base.Exec.{Exec, Outcome, ok, err, panic, lift, ◌>>=◌}
use kata_rust_agent.Base.Exec.Laws.{bind_ok}
use kata_rust_agent.Os.{Os}
use kata_rust_agent.Rustjail.Cgroups.Manager.{get_paths}
use kata_rust_agent.Rustjail.Cgroups.Totals.{
  fifth, add_names, add_cgroup, add_mounts, mounts_of_lines, get_mounts,
}

-- every key of a table is one of another
abbrev pub AllIn : Dict String → Dict String → Type 0
AllIn paths m = (key point : String) → get key m ≡ some point → has key paths ≡ true

put-AllIn :
    (paths m : Dict String) (name point : String)
    → has name paths ≡ true
    → AllIn paths m
    → AllIn paths (put name point m)
put-AllIn paths m name point there all key p h = elim (Bool-cases (str_eq name key)) [
  | inl same ↦ ground (arith, (eq_iff name key).0 same, there)
  | inr differ ↦ all key p (rw (get-put name key point m, differ) at h)
]

-- what a success leaves
abbrev Leaves : Dict String → Outcome (Dict String) → Type 0
Leaves paths (ok m) = AllIn paths m
Leaves paths (err e) = Unit {0}
Leaves paths panic = Unit {0}

add_names-AllIn :
    (paths : Dict String) (point : Option String) (names : List String) (m : Dict String)
    → AllIn paths m
    → Leaves paths (add_names paths point names m)
unfolding add_names
add_names-AllIn paths point [] m all = all
add_names-AllIn paths none (name ∷ names) m all = elim (Bool-cases (has name paths)) [
  | inl there ↦ rw (there, add_names) tt
  | inr gone ↦ rw (gone, add_names) (add_names-AllIn paths none names m all)
]
add_names-AllIn paths (some p) (name ∷ names) m all =
    add_names-AllIn paths (some p) names (if has name paths then put name p m else m)
      (elim (Bool-cases (has name paths)) [
        | inl there ↦ rw there (put-AllIn paths m name p there all)
        | inr gone ↦ rw gone all
      ])

add_cgroup-AllIn :
    (paths : Dict String) (point : Option String) (fields : List String) (m : Dict String)
    → AllIn paths m
    → Leaves paths (add_cgroup paths point fields m)
unfolding add_cgroup
add_cgroup-AllIn paths point [] m all = all
add_cgroup-AllIn paths point (_ ∷ []) m all = all
add_cgroup-AllIn paths point (_ ∷ _ ∷ []) m all = all
add_cgroup-AllIn paths point (kind ∷ _ ∷ names ∷ []) m all =
    elim (Bool-cases (not (str_eq kind "cgroup") && not (str_eq kind "cgroup2"))) [
      | inl other ↦ rw other all
      | inr cgroup ↦ rw cgroup (add_names-AllIn paths point (split b',' names) m all)
    ]
add_cgroup-AllIn paths point (_ ∷ _ ∷ _ ∷ _ ∷ _) m all = all

add_mounts-AllIn :
    (paths : Dict String) (halves : List String) (m : Dict String)
    → AllIn paths m
    → Leaves paths (add_mounts paths halves m)
unfolding add_mounts
add_mounts-AllIn paths [] m all = tt
add_mounts-AllIn paths (_ ∷ []) m all = tt
add_mounts-AllIn paths (pre ∷ post ∷ _) m all =
    add_cgroup-AllIn paths (fifth (split b' ' pre)) (split b' ' post) m all

next_line :
    (paths : Dict String) (x : Outcome (Dict String)) (rest : Dict String → Outcome (Dict String))
    → Leaves paths x
    → ((m : Dict String) → AllIn paths m → Leaves paths (rest m))
    → Leaves paths
        (elim x as (λ _. Outcome (Dict String)) [ ok m ↦ rest m | err e ↦ err e | panic ↦ panic ])
next_line paths (ok m) rest h later = later m h
next_line paths (err e) rest h later = tt
next_line paths panic rest h later = tt

mounts_of_lines-Leaves :
    (paths : Dict String) (ls : List String) (m : Dict String)
    → AllIn paths m
    → Leaves paths (mounts_of_lines paths ls m)
unfolding mounts_of_lines
mounts_of_lines-Leaves paths [] m all = all
mounts_of_lines-Leaves paths (l ∷ ls) m all =
    next_line paths (add_mounts paths (split_text " - " l) m) (λ m'. mounts_of_lines paths ls m')
      (add_mounts-AllIn paths (split_text " - " l) m all)
      (λ m' all'. mounts_of_lines-Leaves paths ls m' all')

mounts_of_lines-AllIn :
    (paths : Dict String) (ls : List String) (mounts : Dict String)
    → mounts_of_lines paths ls [] ≡ ok mounts
    → AllIn paths mounts
unfolding get
mounts_of_lines-AllIn paths ls mounts e =
    subst (Leaves paths) e
      (mounts_of_lines-Leaves paths ls [] (λ key p h. absurd (ground (arith, h))))

-- Whatever mountinfo lists, `get_mounts` finds mount points only for the subsystems that the agent's
-- own cgroup file names.
pub get_mounts-AllIn :
    ⦃os : Os⦄ (mounts : Dict String) (w w' : os.World)
    → get_mounts w ≡ (ok mounts, w')
    → (paths : Dict String) × (t : os.World) × (get_paths w ≡ (ok paths, t)) × AllIn paths mounts
unfolding get_mounts
get_mounts-AllIn ⦃os⦄ mounts w w' e =
    let read : Exec os.World String = λ t. (os.read_to_string "/proc/self/mountinfo" t, t) in
    let parse : Dict String → String → Exec os.World (Dict String) =
      λ paths text. lift (mounts_of_lines paths (lines text) []) in
    let (paths, t, found, rest) = bind_ok get_paths (λ paths. read >>= parse paths) w mounts w' e in
    let (text, t', _, parsed) = bind_ok read (parse paths) t mounts w' rest in
    (
      paths,
      t,
      found,
      mounts_of_lines-AllIn paths (lines text) mounts
          (ap (λ (x : Outcome (Dict String) × os.World). x.0) parsed),
    )
