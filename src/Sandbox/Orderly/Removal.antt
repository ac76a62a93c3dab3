-- ===== src/Sandbox/Orderly/Removal.antt =====
-- The removal of a container and the end of the sandbox keep the sandbox in order.
use kata_rust_agent.Base.{
  ℕ, String, Bool, true, false, Option, none, some, List, [], ◌∷◌, All, Option-cases, inl, inr,
  if◌then◌else◌,
}
use kata_rust_agent.Base.Dict.{get}
use kata_rust_agent.Base.Exec.{
  Exec, Outcome, ok, err, panic, pure, crash, gets, unwrap, attempt, modify, for_each, ◌>>=◌, ◌>>◌,
}
use kata_rust_agent.Base.Exec.Keeps.{
  Keeps, bind-Keeps, then-Keeps, unwrap-Keeps, attempt-Keeps, for_each-Keeps,
}
use kata_rust_agent.Os.{Os}
use kata_rust_agent.Grpc.Remove.{
  Wait, unlimited, in_time, late, counted_mounts, forget, clean_up, destroy_container,
  destroy_in_thread, do_remove_container,
}
use kata_rust_agent.Grpc.Sandboxes.{must, notify, destroy_sandbox}
use kata_rust_agent.Rustjail.Container.{LinuxContainer}
use kata_rust_agent.Rustjail.Lifecycle as Container
use kata_rust_agent.Sandbox.{unset_sandbox_storage}
use kata_rust_agent.Sandbox.Agent.{
  Agent, sys, on_container, on_sandbox, remove_mounts, remove_sandbox_storage,
  unset_and_remove_sandbox_storage, destroy_each, destroy_all,
}
use kata_rust_agent.Sandbox.Orderly.{IsFiled, All-remove}
use kata_rust_agent.Sandbox.Orderly.Create.{on_container-InOrder, unwrapped-InOrder}
use kata_rust_agent.Sandbox.Orderly.State.{InOrder, sys-InOrder}
use kata_rust_agent.Sandbox.Orderly.Methods.{destroy-Filed}

unset_storage-InOrder :
    {W : Type 0} (path : String) → Keeps InOrder (on_sandbox {W = W} (unset_sandbox_storage path))
unfolding on_sandbox unset_sandbox_storage
unset_storage-InOrder path a h = elim (Option-cases (get path a.sandbox.storages)) [
  | inl gone ↦ rw (gone, unset_sandbox_storage) h
  | inr (n, there) ↦ rw (there, unset_sandbox_storage) h
]

module _ ⦃os : Os⦄ where
  abbrev Step : Type 0 → Type 0
  Step A = Exec (Agent os.World) A

  remove_if-InOrder :
      (b : Bool) (m : Exec os.World (Unit {0})) → Keeps InOrder (if b then sys m else pure tt)
  remove_if-InOrder true m s h = sys-InOrder m s h
  remove_if-InOrder false m s h = h

  unset-InOrder : (path : String) → Keeps InOrder (unset_and_remove_sandbox_storage path)
  unfolding unset_and_remove_sandbox_storage
  unset-InOrder path =
      bind-Keeps InOrder (on_sandbox (unset_sandbox_storage path))
        (λ unset. if unset then sys (remove_sandbox_storage path) else pure tt)
        (unset_storage-InOrder path)
        (λ unset. remove_if-InOrder unset (remove_sandbox_storage path))

  abbrev undo : Option (List String) → Step (Unit {0})
  undo none = pure tt
  undo (some mounts) = do
    sys (remove_mounts mounts)
    cmounts ← gets (λ a. counted_mounts a.sandbox.storages mounts)
    for_each cmounts unset_and_remove_sandbox_storage

  undo-InOrder : (found : Option (List String)) → Keeps InOrder (undo found)
  undo-InOrder none s h = h
  undo-InOrder (some mounts) s h =
      let counted : Step (List String) = gets (λ a. counted_mounts a.sandbox.storages mounts) in
      let release : List String → Step (Unit {0}) =
        λ cmounts. for_each cmounts unset_and_remove_sandbox_storage in
      then-Keeps InOrder (sys (remove_mounts mounts)) (counted >>= release)
        (sys-InOrder (remove_mounts mounts))
        (bind-Keeps InOrder counted release (λ a k. k)
          (for_each-Keeps InOrder unset_and_remove_sandbox_storage unset-InOrder))
        s h

  clean_up-InOrder : (cid : String) → Keeps InOrder (clean_up cid)
  unfolding clean_up
  clean_up-InOrder cid s h =
      then-Keeps InOrder (undo (get cid s.sandbox.container_mounts)) (modify (forget cid))
        (undo-InOrder (get cid s.sandbox.container_mounts))
        (λ a k. All-remove cid a.sandbox.containers k) s h

  destroy_container-InOrder : (cid : String) → Keeps InOrder (destroy_container cid)
  unfolding destroy_container
  destroy_container-InOrder cid =
      unwrapped-InOrder cid (λ c. on_container cid c Container.destroy)
        (λ c own. on_container-InOrder cid c Container.destroy (destroy-Filed cid) own)

  in_thread-InOrder : (w : Wait) (cid : String) → Keeps InOrder (destroy_in_thread w cid)
  unfolding destroy_in_thread
  in_thread-InOrder w cid s h = destroy_container-InOrder cid s h

  pub do_remove_container-InOrder :
      (w : Wait) (cid : String) → Keeps InOrder (do_remove_container w cid)
  unfolding do_remove_container
  do_remove_container-InOrder unlimited cid s h =
      then-Keeps InOrder (destroy_container cid) (clean_up cid) (destroy_container-InOrder cid)
        (clean_up-InOrder cid) s h
  do_remove_container-InOrder in_time cid s h =
      then-Keeps InOrder (destroy_in_thread in_time cid) (clean_up cid)
        (in_thread-InOrder in_time cid) (clean_up-InOrder cid) s h
  do_remove_container-InOrder late cid s h =
      then-Keeps InOrder (destroy_in_thread late cid) (clean_up cid) (in_thread-InOrder late cid)
        (clean_up-InOrder cid) s h

  destroy_each-InOrder :
      (l : List (String × LinuxContainer)) → All IsFiled l → Keeps InOrder (destroy_each l)
  unfolding destroy_each for_each
  destroy_each-InOrder [] filed s h = h
  destroy_each-InOrder ((id, c) ∷ l) (own, rest) s h =
      then-Keeps InOrder (on_container id c Container.destroy) (destroy_each l)
        (on_container-InOrder id c Container.destroy (destroy-Filed id) own)
        (destroy_each-InOrder l rest) s h

  destroy_all-InOrder : Keeps InOrder destroy_all
  unfolding destroy_all
  destroy_all-InOrder s h = destroy_each-InOrder s.sandbox.containers h s h

  must-InOrder : (r : Outcome (Unit {0})) → Keeps InOrder (must r)
  must-InOrder (ok u) s h = h
  must-InOrder (err e) s h = h
  must-InOrder panic s h = h

  heard-InOrder :
      (b : Bool) → Keeps {S = Agent os.World} {A = Unit {0}} InOrder (if b then pure tt else crash)
  heard-InOrder true s h = h
  heard-InOrder false s h = h

  notify-InOrder : (send : ℕ → Bool) → Keeps InOrder (notify send)
  notify-InOrder send s h =
      let heard : ℕ → Step (Unit {0}) = λ ch. if send ch then pure tt else crash in
      let forget : Step (Unit {0}) =
        modify (λ a. record a { sandbox = record a.sandbox { sender = none } }) in
      bind-Keeps InOrder (unwrap s.sandbox.sender) (λ ch. heard ch >> forget)
        (unwrap-Keeps InOrder s.sandbox.sender)
        (λ ch. then-Keeps InOrder (heard ch) forget (heard-InOrder (send ch)) (λ a k. k)) s h

  pub destroy_sandbox-InOrder : (send : ℕ → Bool) → Keeps InOrder (destroy_sandbox send)
  unfolding destroy_sandbox
  destroy_sandbox-InOrder send =
      bind-Keeps InOrder (attempt destroy_all) (λ r. must r >> notify send)
        (attempt-Keeps InOrder destroy_all destroy_all-InOrder)
        (λ r. then-Keeps InOrder (must r) (notify send) (must-InOrder r) (notify-InOrder send))
