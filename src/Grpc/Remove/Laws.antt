-- ===== src/Grpc/Remove/Laws.antt =====
-- What a removal leaves in the sandbox.
use kata_rust_agent.Base.{
  String, Bool, true, false, Option, none, some, ◌≡◌, refl, sym, ◌∙◌, ap, inl, inr, Option-cases,
  eq_refl, str_eq, if◌then◌else◌,
}
use kata_rust_agent.Base.Dict.{Dict, get, get-put, get-remove}
use kata_rust_agent.Base.Exec.{ok, Exec, for_each, gets, unwrap, pure, modify, ◌>>=◌, ◌>>◌}
use kata_rust_agent.Base.Exec.Laws.{after, bind_ok, bind-keeps, for_each-keeps}
use kata_rust_agent.Os.{Os}
use kata_rust_agent.Rustjail.Container.{LinuxContainer}
use kata_rust_agent.Rustjail.Lifecycle as Container
use kata_rust_agent.Sandbox.{Sandbox, unset_sandbox_storage}
use kata_rust_agent.Sandbox.Agent.{
  Agent, sys, on_sandbox, on_container, remove_mounts, remove_sandbox_storage,
  unset_and_remove_sandbox_storage,
}
use kata_rust_agent.Grpc.Remove.{
  forget, Wait, unlimited, in_time, late, clean_up, counted_mounts, destroy_container,
  destroy_in_thread, do_remove_container,
}

abbrev containers_of : {W : Type 0} → Agent W → Dict LinuxContainer
containers_of a = a.sandbox.containers

unset-containers :
    (p : String) (s : Sandbox) → (unset_sandbox_storage p s).1.containers ≡ s.containers
unfolding unset_sandbox_storage
unset-containers p s = elim (Option-cases (get p s.storages)) [
  | inl gone ↦ rw (gone, unset_sandbox_storage) refl
  | inr (n, there) ↦ rw (there, unset_sandbox_storage) refl
]

sys-containers :
    {W A : Type 0} (m : Exec W A) (a : Agent W)
    → (after (sys m) a).sandbox.containers ≡ a.sandbox.containers
unfolding sys
sys-containers m a = refl

-- the answer of a call and the state after it, from the pair of both
second : {S A : Type 0} {m : A × S} {a : A} {t : S} → m ≡ (a, t) → m.1 ≡ t
second e = ap (λ x. x.1) e

module _ ⦃os : Os⦄ where
  remove_if-containers :
      (unset : Bool) (p : String) (a : Agent os.World)
      → (after (if unset then sys (remove_sandbox_storage p) else pure tt) a).sandbox.containers
        ≡ a.sandbox.containers
  remove_if-containers true p a = sys-containers (remove_sandbox_storage p) a
  remove_if-containers false p a = refl

  unset_and_remove-containers :
      (p : String) (a : Agent os.World)
      → (after (unset_and_remove_sandbox_storage p) a).sandbox.containers ≡ a.sandbox.containers
  unfolding unset_and_remove_sandbox_storage on_sandbox
  unset_and_remove-containers p a =
      bind-keeps containers_of (on_sandbox (unset_sandbox_storage p))
        (λ unset. if unset then sys (remove_sandbox_storage p) else pure tt) a
        (unset-containers p a.sandbox) (λ unset t. remove_if-containers unset p t)

  -- A cleaning up that succeeds has forgotten the container, and no other.
  clean_up_ok :
      (cid : String) (a a' : Agent os.World)
      → clean_up cid a ≡ (ok tt, a')
      → (b : Agent os.World) × (b.sandbox.containers ≡ a.sandbox.containers) × (a' ≡ forget cid b)
  unfolding clean_up
  clean_up_ok cid a a' = elim (Option-cases (get cid a.sandbox.container_mounts)) [
    | inl gone ↦ rw gone (λ e. (a, refl, sym (second e)))
    | inr (mounts, there) ↦ rw there (λ e.
        let unmount = sys (remove_mounts mounts) in
        let release : Exec (Agent os.World) (Unit {0}) = (do
          cmounts ← gets (λ a. counted_mounts a.sandbox.storages mounts)
          for_each cmounts unset_and_remove_sandbox_storage) in
        let (u, b, before, last) =
          bind_ok (unmount >> release) (λ _. modify (forget cid)) a tt a' e in
        (
          b,
          sym (ap containers_of (second before))
              ∙ bind-keeps containers_of unmount (λ _. release) a
                  (sys-containers (remove_mounts mounts) a)
                  (λ _ t.
                    for_each-keeps containers_of unset_and_remove_sandbox_storage
                      unset_and_remove-containers _ t),
          sym (second last),
        ))
  ]

  unwrap-keeps : {S A X : Type 0} (g : S → X) (o : Option A) (s : S) → g (after (unwrap o) s) ≡ g s
  unwrap-keeps g none s = refl
  unwrap-keeps g (some x) s = refl

  pub destroy_container-keeps :
      {X : Type 0} (g : Agent os.World → X) (cid : String) (a : Agent os.World)
      → ((c : LinuxContainer) (t : Agent os.World)
          → g (after (on_container cid c Container.destroy) t) ≡ g t)
      → g (after (destroy_container cid) a) ≡ g a
  unfolding destroy_container
  destroy_container-keeps g cid a h =
      bind-keeps g (unwrap (get cid a.sandbox.containers))
        (λ ctr. on_container cid ctr Container.destroy) a
        (unwrap-keeps g (get cid a.sandbox.containers) a) h

  destroy_container-others :
      (cid j : String) (a : Agent os.World)
      → str_eq cid j ≡ false
      → get j (after (destroy_container cid) a).sandbox.containers ≡ get j a.sandbox.containers
  destroy_container-others cid j a other =
      destroy_container-keeps (λ t. get j t.sandbox.containers) cid a
        (λ c t. unfold on_container in (rw (get-put cid j _ t.sandbox.containers, other) refl))

  -- the destruction and then the cleaning up, whatever the destruction answers
  removal_ok :
      (cid : String) (m : Exec (Agent os.World) (Unit {0})) (a a' : Agent os.World)
      → after m a ≡ after (destroy_container cid) a
      → (m >> clean_up cid) a ≡ (ok tt, a')
      → (get cid a'.sandbox.containers ≡ none)
        × (get cid a'.sandbox.container_mounts ≡ none)
        × ((j : String)
            → str_eq cid j ≡ false
            → get j a'.sandbox.containers ≡ get j a.sandbox.containers)
  removal_ok cid m a a' same e =
      let (u, b, first, rest) = bind_ok m (λ _. clean_up cid) a tt a' e in
      let (c, kept, last) = clean_up_ok cid b a' rest in
      let destroyed : b ≡ after (destroy_container cid) a = sym (second first) ∙ same in
      (
        rw last (rw (get-remove cid cid c.sandbox.containers, eq_refl cid) refl),
        rw last (rw (get-remove cid cid c.sandbox.container_mounts, eq_refl cid) refl),
        λ j other. rw last (
            rw (get-remove cid j c.sandbox.containers, other, kept, destroyed)
              (destroy_container-others cid j a other)),
      )

  -- A removal that succeeds, with or without a timeout, leaves neither the container nor its list of
  -- mounts in the sandbox; every other container is as it was.
  pub do_remove_container_lem :
      (wait : Wait) (cid : String) (a a' : Agent os.World)
      → do_remove_container wait cid a ≡ (ok tt, a')
      → (get cid a'.sandbox.containers ≡ none)
        × (get cid a'.sandbox.container_mounts ≡ none)
        × ((j : String)
            → str_eq cid j ≡ false
            → get j a'.sandbox.containers ≡ get j a.sandbox.containers)
  unfolding do_remove_container
  do_remove_container_lem unlimited cid a a' = removal_ok cid (destroy_container cid) a a' refl
  do_remove_container_lem in_time cid a a' =
      removal_ok cid (destroy_in_thread in_time cid) a a' (unfold destroy_in_thread in refl)
  do_remove_container_lem late cid a a' =
      removal_ok cid (destroy_in_thread late cid) a a' (unfold destroy_in_thread in refl)
