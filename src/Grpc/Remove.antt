-- ===== src/Grpc/Remove.antt =====
-- `do_remove_container` of src/grpc.rs.
pub mod Laws
pub mod Storages
use kata_rust_agent.Base.{ℕ, String, Bool, Option, none, some, List, [], ◌∷◌, ◌==◌, if◌then◌else◌}
use kata_rust_agent.Base.Dict.{Dict, get, has, remove}
use kata_rust_agent.Base.Exec.{
  Exec, Outcome, ok, err, panic, nix, etime, pure, raise, gets, unwrap, modify, for_each, ◌>>=◌,
  ◌>>◌,
}
use kata_rust_agent.Os.{Os}
use kata_rust_agent.Rustjail.Lifecycle as Container
use kata_rust_agent.Sandbox.{Sandbox}
use kata_rust_agent.Sandbox.Agent.{
  Agent, sys, on_container, remove_mounts, unset_and_remove_sandbox_storage,
}

-- the mounts that are sandbox storages
unfoldable pub counted_mounts : Dict ℕ → List String → List String
unfolding has
counted_mounts storages [] = []
counted_mounts storages (m ∷ ms) =
    let rest = counted_mounts storages ms in if has m storages then m ∷ rest else rest

abbrev pub forget : {W : Type 0} → String → Agent W → Agent W
forget cid a = record a {
  sandbox = record a.sandbox {
    container_mounts = remove cid a.sandbox.container_mounts;
    containers = remove cid a.sandbox.containers;
  };
}

-- A removal that does not wait, one whose container is destroyed in time, and one where the timeout
-- passes first. The thread that destroys the container goes on then, so what it does is in the state.
pub data Wait : Type 0 where
  unlimited in_time late : Wait

module _ ⦃os : Os⦄ where
  -- from "Find the sandbox storage used by this container" on, which both branches have
  unfoldable pub clean_up : String → Exec (Agent os.World) (Unit {0})
  unfolding sys remove_mounts counted_mounts unset_and_remove_sandbox_storage for_each
  clean_up cid = do
    found ← gets (λ a. get cid a.sandbox.container_mounts)
    elim found [
      | none ↦ pure tt
      | some mounts ↦ do
        sys (remove_mounts mounts)
        cmounts ← gets (λ a. counted_mounts a.sandbox.storages mounts)
        for_each cmounts unset_and_remove_sandbox_storage
    ]
    modify (forget cid)

  -- `sandbox.get_container(cid).unwrap().destroy()`
  unfoldable pub destroy_container : String → Exec (Agent os.World) (Unit {0})
  unfolding on_container
  destroy_container cid = do
    c ← gets (λ a. get cid a.sandbox.containers)
    ctr ← unwrap c
    on_container cid ctr Container.destroy

  -- What the handler sees of the thread: a message, or a closed channel after an `unwrap` failed.
  unfoldable pub destroy_in_thread : Wait → String → Exec (Agent os.World) (Unit {0})
  unfolding destroy_container
  destroy_in_thread wait cid a =
      let (r, a') = destroy_container cid a in
      (
        elim r [ ok _ ↦ (elim wait [ late ↦ err (nix etime) | _ ↦ ok tt ]) | _ ↦ err (nix etime) ],
        a',
      )

  unfoldable pub do_remove_container : Wait → String → Exec (Agent os.World) (Unit {0})
  unfolding clean_up destroy_container destroy_in_thread
  do_remove_container unlimited cid = do destroy_container cid; clean_up cid
  do_remove_container in_time cid = do destroy_in_thread in_time cid; clean_up cid
  do_remove_container late cid = do destroy_in_thread late cid; clean_up cid
