-- ===== src/Tests/SandboxRuns.antt =====
-- Storages with several users, namespaces, and the removal of a container.
use kata_rust_agent.Base.{◌-◌, ◌≤◌, String, false, none, [], ◌∷◌, ◌≡◌, refl, arith, str_eq}
use kata_rust_agent.Base.Dict.{get}
use kata_rust_agent.Rustjail.Lifecycle as Container
use kata_rust_agent.Sandbox.{unset_sandbox_storage}
use kata_rust_agent.Sandbox.Agent.{remove_sandbox_storage, unset_and_remove_sandbox_storage}
use kata_rust_agent.Sandbox.Counts.{
  refs, IsCounted, HasRoom, set_call, unset_call, run, users, run-users,
}
use kata_rust_agent.Sandbox.Release.{unset_and_remove_in_use}
use kata_rust_agent.Grpc.Remove.{unlimited, do_remove_container}
use kata_rust_agent.Grpc.Remove.Laws.{do_remove_container_lem}
use kata_rust_agent.Tests.World.{toy, sandbox, agent}

sandbox-IsCounted : IsCounted sandbox
sandbox-IsCounted = record { at_path = λ q n e. unfold get in ground (arith, e) }

sandbox-HasRoom : HasRoom 2 sandbox
sandbox-HasRoom q = unfold get in ground arith

run-users_example :
    (refs (run (set_call "/mnt" ∷ unset_call "/a" ∷ []) sandbox) "/mnt"
      ≡ users "/mnt" (set_call "/mnt" ∷ unset_call "/a" ∷ []) (refs sandbox "/mnt"))
    × IsCounted (run (set_call "/mnt" ∷ unset_call "/a" ∷ []) sandbox)
run-users_example =
    run-users (set_call "/mnt" ∷ unset_call "/a" ∷ []) sandbox "/mnt" sandbox-IsCounted
      sandbox-HasRoom

unset_and_remove_in_use_example :
    let (r, a') = unset_and_remove_sandbox_storage ⦃os = toy⦄ "/mnt" agent in
    ((r, a'.world) ≡ remove_sandbox_storage ⦃os = toy⦄ "/mnt" agent.world)
    × (refs a'.sandbox "/mnt" ≡ refs sandbox "/mnt" - 1)
    × (1 ≤ refs a'.sandbox "/mnt")
unset_and_remove_in_use_example =
    unset_and_remove_in_use ⦃os = toy⦄ "/mnt" agent sandbox-IsCounted (unfold get in ground arith)

do_remove_container_lem_example :
    let a' = (do_remove_container ⦃os = toy⦄ unlimited "c" agent).1 in
    (get "c" a'.sandbox.containers ≡ none)
    × (get "c" a'.sandbox.container_mounts ≡ none)
    × ((j : String)
        → str_eq "c" j ≡ false
        → get j a'.sandbox.containers ≡ get j agent.sandbox.containers)
unfolding do_remove_container Container.destroy unset_sandbox_storage
do_remove_container_lem_example =
    do_remove_container_lem ⦃os = toy⦄ unlimited "c" agent
      (do_remove_container ⦃os = toy⦄ unlimited "c" agent).1 refl
