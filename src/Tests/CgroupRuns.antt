-- ===== src/Tests/CgroupRuns.antt =====
-- Limits written and read back, and an empty cpuset that is filled from its ancestors.
use kata_rust_agent.Base.{String, none, some, [], ◌∷◌, ◌≡◌, refl, arith, ap, ◌∙◌, ◌≢◌, Option, pos}
use mathlib.Core.Path.{subst}
use kata_rust_agent.Base.Dict.{Dict, get, put, get-put}
use kata_rust_agent.Base.{eq_refl}
use kata_rust_agent.Base.Exec.{Outcome, ok, panic}
use kata_rust_agent.Oci.Resources.{LinuxResources}
use kata_rust_agent.Rustjail.Cgroups.{copy_parent, get_param_u64}
use kata_rust_agent.Rustjail.Cgroups.CopyParent.{slashes, Steady, Settles, copy_parent-Settles}
use kata_rust_agent.Rustjail.Cgroups.Resources.{set_pids}
use kata_rust_agent.Rustjail.Cgroups.RoundTrip.{Remembers, get_pids_stats-set_pids}
use kata_rust_agent.Rustjail.Cgroups.Stats.{PidsStats, get_pids_stats}
use kata_rust_agent.Base.Print.RoundTrip.{bare}
use Prim.Native.String.{◌++◌}
use Prim.Native.String.append
use kata_rust_agent.Tests.World.{toy, read}

append_nil : (s : String) → s ++ "" ≡ s
append_nil String.[] = append.nil ""
append_nil (String.◌∷◌ c s) = append.cons c s "" ∙ ap (String.◌∷◌ c) (append_nil s)

read-put : (p v : String) (w : Dict String) → read (get p (put p v w)) ≡ ok v
read-put p v w = rw (get-put p p v w, eq_refl p) refl

toy_keeps :
    (p v : String) (w w' : Dict String)
    → toy.write p v w ≡ (ok tt, w')
    → toy.read_to_string p w' ≡ ok v
toy_keeps p v w w' e =
    subst (λ t. read (get p t) ≡ ok v) (ap (λ (x : Outcome (Unit {0}) × Dict String). x.1) e)
      (read-put p v w)

read_returns : (o : Option String) → read o ≢ panic
read_returns none h = ground (arith, h)
read_returns (some v) h = ground (arith, h)

toy-Steady : Steady ⦃os = toy⦄
toy-Steady = record {
  kept = toy_keeps;
  write_returns = λ p v w h. ground (arith, h);
  read_returns = λ p w. read_returns (get p w);
}

abbrev tree : Dict String
tree = ("/cg/cpuset.cpus", "0-3\n") ∷ ("/cg/a/cpuset.cpus", "\n") ∷ []

toy-Remembers : Remembers ⦃os = toy⦄ "/cg/pids.max"
unfolding Remembers
toy-Remembers v w w' e = ("", bare, rw (append_nil v) (toy_keeps "/cg/pids.max" v w w' e))

copy_parent-Settles_example :
    Settles ⦃os = toy⦄ "/cg/a/b" "cpuset.cpus"
      (copy_parent ⦃os = toy⦄ 4 "/cg/a/b" "cpuset.cpus" tree)
unfolding slashes
copy_parent-Settles_example =
    copy_parent-Settles ⦃os = toy⦄ toy-Steady "cpuset.cpus" 4 "/cg/a/b" tree (omega arith)

abbrev limits : LinuxResources
limits = record {
  devices = [];
  memory = none;
  cpu = none;
  pids = some (pos 100);
  block_io = none;
  hugepage_limits = [];
  network = none;
}

get_pids_stats-set_pids_example :
    Path
      (Outcome PidsStats × Dict String)
      (get_pids_stats ⦃os = toy⦄ "/cg" (("/cg/pids.current", "7\n") ∷ ("/cg/pids.max", "100") ∷ []))
      (
        ok (record { current = 7; limit = 100 }),
        ("/cg/pids.current", "7\n") ∷ ("/cg/pids.max", "100") ∷ [],
      )
unfolding set_pids put get_param_u64 get
get_pids_stats-set_pids_example =
    get_pids_stats-set_pids ⦃os = toy⦄ "/cg" limits (pos 100) 7 (("/cg/pids.current", "7\n") ∷ [])
      (("/cg/pids.current", "7\n") ∷ ("/cg/pids.max", "100") ∷ []) refl (omega arith) toy-Remembers
      refl refl
