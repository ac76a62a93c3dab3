-- ===== src/Tests/ProcsRuns.antt =====
-- A cgroup with one group below it, and the sizes of huge pages.
use Prim.Native.String.{◌++◌}
use mathlib.Core.Path.{subst}
use kata_rust_agent.Base.{
  ℕ, ◌<◌, String, true, List, [], ◌∷◌, ◌≡◌, ◌≢◌, sym, arith, inl, inr, All, Bool-cases, str_eq,
  eq_iff, if◌then◌else◌, ◌||◌, Option, none, some,
}
use kata_rust_agent.Base.Dict.{Dict, get}
use kata_rust_agent.Base.Exec.{ok, panic}
use kata_rust_agent.Os.{Os}
use kata_rust_agent.Rustjail.Cgroups.Procs.{get_all_procs}
use kata_rust_agent.Rustjail.Cgroups.Procs.Laws.{IsTree, get_all_procs-returns}
use kata_rust_agent.Tests.World.{toy, read}

abbrev entries : String → List String
entries p =
    if str_eq p "/cg"
    then "a" ∷ "cgroup.procs" ∷ []
    else if str_eq p "/cg/a"
    then "cgroup.procs" ∷ []
    else []

abbrev groups : Os
groups = record toy {
  read_dir = λ p w. ok (entries p);
  is_dir = λ p w. str_eq p "/cg" || str_eq p "/cg/a";
}

abbrev processes : Dict String
processes = ("/cg/cgroup.procs", "1\n2\n") ∷ ("/cg/a/cgroup.procs", "3\n") ∷ []

abbrev height : String → ℕ
height p = if str_eq p "/cg" then 2 else if str_eq p "/cg/a" then 1 else 0

IsLower : String → String → Type 0
IsLower dir name =
    groups.is_dir (dir ++ "/" ++ name) processes ≡ true → height (dir ++ "/" ++ name) < height dir

top-IsLower : All (IsLower "/cg") ("a" ∷ "cgroup.procs" ∷ [])
unfolding IsLower
top-IsLower = (λ h. omega arith, (λ h. absurd (ground (arith, h)), tt))

below-IsLower : All (IsLower "/cg/a") ("cgroup.procs" ∷ [])
unfolding IsLower
below-IsLower = (λ h. absurd (ground (arith, h)), tt)

entries-IsLower : (dir : String) → All (IsLower dir) (entries dir)
entries-IsLower dir = elim (Bool-cases (str_eq dir "/cg")) [
  | inl top ↦ rw top (
      subst (λ d. All (IsLower d) ("a" ∷ "cgroup.procs" ∷ [])) (sym ((eq_iff dir "/cg").0 top))
        top-IsLower)
  | inr other ↦ elim (Bool-cases (str_eq dir "/cg/a")) [
    | inl low ↦
        rw (other, low)
          (subst (λ d. All (IsLower d) ("cgroup.procs" ∷ [])) (sym ((eq_iff dir "/cg/a").0 low))
            below-IsLower)
    | inr nowhere ↦ rw (other, nowhere) tt
  ]
]

read_returns : (o : Option String) → read o ≢ panic
read_returns none h = ground (arith, h)
read_returns (some v) h = ground (arith, h)

groups-IsTree : IsTree ⦃os = groups⦄ processes height
unfolding IsLower
groups-IsTree = record {
  read_returns = λ p. read_returns (get p processes);
  read_dir_returns = λ p h. ground (arith, h);
  lower = λ dir names e. subst (All (IsLower dir)) (ground (arith, e)) (entries-IsLower dir);
}

get_all_procs-returns_example : get_all_procs ⦃os = groups⦄ 3 "/cg" processes ≢ panic
get_all_procs-returns_example =
    get_all_procs-returns ⦃os = groups⦄ processes height groups-IsTree 3 "/cg" (omega arith)
