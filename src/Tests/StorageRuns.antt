-- ===== src/Tests/StorageRuns.antt =====
-- The removal of a container whose mount is a sandbox storage, on a system where a path that is not
-- mounted cannot be unmounted.
use kata_rust_agent.Base.{String, Option, none, some, ◌≡◌, ◌≢◌, refl, sym, ap, ◌∙◌, arith, eq_refl}
use kata_rust_agent.Base.Dict.{Dict, get, has, remove, get-remove}
use kata_rust_agent.Base.Exec.{Outcome, Exec, ok, err, nix, einval}
use kata_rust_agent.Os.{Os}
use kata_rust_agent.Grpc.Remove.{in_time, do_remove_container}
use kata_rust_agent.Grpc.Remove.Storages.{do_remove_container-storage}
use kata_rust_agent.Tests.World.{toy, agent}

abbrev unmount_at : String → Option String → Exec (Dict String) (Unit {0})
unmount_at m none w = (err (nix einval), w)
unmount_at m (some source) w = (ok tt, remove m w)

abbrev strict : Os
strict = record toy { umount = λ m w. unmount_at m (get m w) w }

gone_fails : (m : String) (w : Dict String) → get m w ≡ none → (unmount_at m (get m w) w).0 ≢ ok tt
gone_fails m w gone = rw gone (λ e. ground (arith, e))

unmount_once :
    (m : String) (w w' : Dict String) (o : Option String)
    → unmount_at m o w ≡ (ok tt, w')
    → (unmount_at m (get m w') w').0 ≢ ok tt
unmount_once m w w' none =
    λ e. absurd (ground (arith, ap (λ (x : Outcome (Unit {0}) × Dict String). x.0) e))
unmount_once m w w' (some source) = λ e.
    let removed : remove m w ≡ w' = ap (λ (x : Outcome (Unit {0}) × Dict String). x.1) e in
    gone_fails m w' (ap (get m) (sym removed) ∙ rw (get-remove m m w, eq_refl m) refl)

do_remove_container-storage_example :
    do_remove_container ⦃os = strict⦄ in_time "c" agent ≢ (ok tt, agent)
unfolding get has
do_remove_container-storage_example =
    do_remove_container-storage ⦃os = strict⦄ (λ m w w'. unmount_once m w w' (get m w)) in_time "c"
      "/mnt" agent agent refl refl
