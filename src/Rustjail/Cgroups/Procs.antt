-- ===== src/Rustjail/Cgroups/Procs.antt =====
-- The processes of a cgroup (`get_procs`, `get_all_procs`, `get_pids` and `get_all_pids` of
-- rustjail/src/cgroups/fs/mod.rs).
pub mod Laws
use Prim.Native.String.{◌++◌}
use mathlib.Core.List.{◌++◌ as append}
use kata_rust_agent.Base.{
  ℕ, zero, suc, String, Bool, true, false, ◌&&◌, Option, none, some, List, [], ◌∷◌, ℤ, str_eq,
  if◌then◌else◌,
}
use kata_rust_agent.Base.Dict.{get}
use kata_rust_agent.Base.Text.{trim, lines, parse_i32}
use kata_rust_agent.Base.Exec.{
  Exec, Outcome, ok, err, panic, error_code, parse_int, or_raise, ◌>>=◌,
}
use kata_rust_agent.Os.{Os}
use kata_rust_agent.Rustjail.Container.{Manager}

-- the loop of `get_procs`
unfoldable pub pids_of_lines : List String → Outcome (List ℤ)
unfolding parse_i32 trim
pids_of_lines [] = ok []
pids_of_lines (l ∷ ls) =
    let rest = pids_of_lines ls in
    elim (parse_i32 (trim l)) [
      | none ↦ err parse_int
      | some pid ↦ elim rest [ ok pids ↦ ok (pid ∷ pids) | err e ↦ err e | panic ↦ panic ]
    ]

-- `m.append(…?)`
abbrev pub append_to : List ℤ → Outcome (List ℤ) → Outcome (List ℤ)
append_to m (ok more) = ok (append m more)
append_to m (err e) = err e
append_to m panic = panic

abbrev pub and_then : Outcome (List ℤ) → (List ℤ → Outcome (List ℤ)) → Outcome (List ℤ)
and_then (ok m) f = f m
and_then (err e) f = err e
and_then panic f = panic

module _ ⦃os : Os⦄ where
  -- `get_procs`; reading changes nothing, so the world comes back as it was
  unfoldable pub get_procs : String → os.World → Outcome (List ℤ)
  unfolding pids_of_lines lines
  get_procs dir w = elim (os.read_to_string (dir ++ "/" ++ "cgroup.procs") w) [
    | ok text ↦ pids_of_lines (lines text)
    | err e ↦ err e
    | panic ↦ panic
  ]

  -- the loop of `get_all_procs` over the names in a directory, `down` for its calls of itself
  unfoldable pub procs_of_entries :
      (String → Outcome (List ℤ)) → String → os.World → List String → List ℤ → Outcome (List ℤ)
  unfolding get_procs
  procs_of_entries down dir w [] m = ok m
  procs_of_entries down dir w (name ∷ names) m =
      let path = dir ++ "/" ++ name in
      let rest = λ (m' : List ℤ). procs_of_entries down dir w names m' in
      and_then (if os.is_dir path w then append_to m (down path) else ok m) (λ m'.
        if os.is_file path w && str_eq name "cgroup.procs"
        then append_to m' (get_procs dir w)
        else rest m')

  -- `get_all_procs`. Each call of itself takes one level of the stack; out of it the program aborts.
  unfoldable pub get_all_procs : ℕ → String → os.World → Outcome (List ℤ)
  unfolding procs_of_entries
  get_all_procs zero dir w = panic
  get_all_procs (suc depth) dir w = elim (os.read_dir dir w) [
    | ok names ↦ procs_of_entries (λ path. get_all_procs depth path w) dir w names []
    | err e ↦ err e
    | panic ↦ panic
  ]

  abbrev pub in_devices : Manager → (String → os.World → Outcome (List ℤ)) → Exec os.World (List ℤ)
  in_devices m procs w = elim (get "devices" m.paths) [
    | none ↦ (err (error_code "no devices cgroup"), w)
    | some dir ↦ (procs dir w, w)
  ]

  -- `get_pids`, `get_all_pids`
  unfoldable pub get_pids : Manager → Exec os.World (List ℤ)
  unfolding get get_procs
  get_pids m = in_devices m get_procs

  unfoldable pub get_all_pids : ℕ → Manager → Exec os.World (List ℤ)
  unfolding get get_all_procs
  get_all_pids depth m = in_devices m (get_all_procs depth)
