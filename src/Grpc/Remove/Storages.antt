-- ===== src/Grpc/Remove/Storages.antt =====
-- The removal of a container that was the first user of a sandbox storage: the storage is among the
-- container's mounts, so it is unmounted twice.
use kata_rust_agent.Base.{
  String, Bool, true, some, [], ◌∷◌, ◌≡◌, ◌≢◌, refl, sym, ap, ◌∙◌, arith, inl, inr, Option-cases,
  if◌then◌else◌,
}
use kata_rust_agent.Base.Dict.{get, has}
use kata_rust_agent.Base.Exec.{Outcome, ok, Exec, for_each, gets, pure, modify, ◌>>=◌, ◌>>◌}
use kata_rust_agent.Base.Exec.Laws.{after, bind_ok, value}
use kata_rust_agent.Os.{Os}
use kata_rust_agent.Sandbox.{Sandbox, unset_sandbox_storage}
use kata_rust_agent.Grpc.Remove.Laws.{destroy_container-keeps}
use kata_rust_agent.Sandbox.Agent.{
  Agent, sys, on_sandbox, on_container, remove_mounts, remove_sandbox_storage,
  unset_and_remove_sandbox_storage,
}
use kata_rust_agent.Grpc.Remove.{
  Wait, unlimited, in_time, late, forget, destroy_container, destroy_in_thread, counted_mounts,
  clean_up, do_remove_container,
}

unset-counted :
    (p : String) (s : Sandbox) → has p s.storages ≡ true → (unset_sandbox_storage p s).0 ≡ true
unfolding unset_sandbox_storage has
unset-counted p s = elim (Option-cases (get p s.storages)) [
  | inl gone ↦ rw (gone, has) (λ e. absurd (ground (arith, e)))
  | inr (n, there) ↦ λ e. rw (there, unset_sandbox_storage) refl
]

module _ ⦃os : Os⦄
    (once : (m : String) (w w' : os.World)
      → os.umount m w ≡ (ok tt, w')
      → (os.umount m w').0 ≢ ok tt) where
  -- an unmount that succeeds cannot be followed by one that does
  remove_mounts_once :
      (m : String) (w w' : os.World)
      → remove_mounts (m ∷ []) w ≡ (ok tt, w')
      → (v : os.World) → remove_mounts (m ∷ []) w' ≢ (ok tt, v)
  unfolding remove_mounts for_each
  remove_mounts_once m w w' first v second =
      let (u, w1, e1, f1) = bind_ok (os.umount m) (λ _ s. (ok tt, s)) w tt w' first in
      let (u2, w2, e2, f2) = bind_ok (os.umount m) (λ _ s. (ok tt, s)) w' tt v second in
      let same : w1 ≡ w' = ap (λ (x : Outcome (Unit {0}) × os.World). x.1) f1 in
      once m w w' (e1 ∙ f1) (ap (λ (x : Outcome (Unit {0}) × os.World). x.0) e2)

  sys_ok :
      (m : Exec os.World (Unit {0})) (a b : Agent os.World)
      → sys m a ≡ (ok tt, b)
      → (m a.world ≡ (ok tt, b.world)) × (b.sandbox ≡ a.sandbox)
  unfolding sys
  sys_ok m a b e = (
    ap (λ (x : Outcome (Unit {0}) × Agent os.World). (x.0, x.1.world)) e,
    sym (ap (λ (x : Outcome (Unit {0}) × Agent os.World). x.1.sandbox) e),
  )

  -- what is left to do after the mounts of the container are gone
  abbrev release : String → Exec (Agent os.World) (Unit {0})
  release m = do
    cmounts ← gets (λ a. counted_mounts a.sandbox.storages (m ∷ []))
    for_each cmounts unset_and_remove_sandbox_storage

  unset_and_remove_fails :
      (m : String) (b b' : Agent os.World)
      → has m b.sandbox.storages ≡ true
      → ((v : os.World) → remove_mounts (m ∷ []) b.world ≢ (ok tt, v))
      → unset_and_remove_sandbox_storage m b ≢ (ok tt, b')
  unfolding unset_and_remove_sandbox_storage on_sandbox remove_sandbox_storage
  unset_and_remove_fails m b b' counted busy e =
      let rest = λ (unset : Bool). if unset then sys (remove_sandbox_storage m) else pure tt in
      let (u, t, e1, e2) = bind_ok (on_sandbox (unset_sandbox_storage m)) rest b tt b' e in
      let unset : u ≡ true =
        sym (value (unset_sandbox_storage m b.sandbox).0 u _ t e1)
        ∙ unset-counted m b.sandbox counted in
      let world : t.world ≡ b.world =
        sym (ap (λ (x : Outcome Bool × Agent os.World). x.1.world) e1) in
      let removal : sys (remove_sandbox_storage m) t ≡ (ok tt, b') =
        ap (λ x. rest x t) (sym unset) ∙ e2 in
      let (again, same) = sys_ok (remove_sandbox_storage m) t b' removal in
      let (v, w, second, last) =
        bind_ok (remove_mounts (m ∷ [])) (λ _. os.remove_dir_all m) t.world tt b'.world again in
      busy w (ap (remove_mounts (m ∷ [])) (sym world) ∙ second)

  release_fails :
      (m : String) (b b' : Agent os.World)
      → has m b.sandbox.storages ≡ true
      → ((v : os.World) → remove_mounts (m ∷ []) b.world ≢ (ok tt, v))
      → release m b ≢ (ok tt, b')
  unfolding counted_mounts for_each
  release_fails m b b' counted busy = rw counted (λ e.
      let (u, t, first, last) =
        bind_ok (unset_and_remove_sandbox_storage m) (λ _ s. (ok tt, s)) b tt b' e in
      unset_and_remove_fails m b t counted busy first)

  clean_up_fails :
      (cid m : String) (b a' : Agent os.World)
      → get cid b.sandbox.container_mounts ≡ some (m ∷ [])
      → has m b.sandbox.storages ≡ true
      → clean_up cid b ≢ (ok tt, a')
  unfolding clean_up
  clean_up_fails cid m b a' mounted counted = rw mounted (λ e.
      let unmount = sys (remove_mounts (m ∷ [])) in
      let (u, c, before, last) =
        bind_ok (unmount >> release m) (λ _. modify (forget cid)) b tt a' e in
      let (u2, d, unmounted, rest) = bind_ok unmount (λ _. release m) b tt c before in
      let (gone, same) = sys_ok (remove_mounts (m ∷ [])) b d unmounted in
      release_fails m d c (ap (λ (s : Sandbox). has m s.storages) same ∙ counted)
        (remove_mounts_once m b.world d.world gone) rest)

  removal_fails :
      (cid m : String) (k : Exec (Agent os.World) (Unit {0})) (a a' : Agent os.World)
      → after k a ≡ after (destroy_container cid) a
      → get cid a.sandbox.container_mounts ≡ some (m ∷ [])
      → has m a.sandbox.storages ≡ true
      → (k >> clean_up cid) a ≢ (ok tt, a')
  removal_fails cid m k a a' same mounted counted e =
      let (u, b, first, rest) = bind_ok k (λ _. clean_up cid) a tt a' e in
      let destroyed : b ≡ after (destroy_container cid) a =
        sym (ap (λ (x : Outcome (Unit {0}) × Agent os.World). x.1) first) ∙ same in
      clean_up_fails cid m b a'
        (ap (λ (t : Agent os.World). get cid t.sandbox.container_mounts) destroyed
          ∙ destroy_container-keeps (λ t. get cid t.sandbox.container_mounts) cid a
              (λ c t. unfold on_container in refl)
          ∙ mounted)
        (ap (λ (t : Agent os.World). has m t.sandbox.storages) destroyed
          ∙ destroy_container-keeps (λ t. has m t.sandbox.storages) cid a
              (λ c t. unfold on_container in refl)
          ∙ counted)
        rest

  -- Where an unmount of a path that follows a successful one fails, a request to remove a container whose
  -- one mount is a sandbox storage does not succeed, with or without a timeout: the storage is unmounted
  -- as a mount of the container and then as a storage.
  pub do_remove_container-storage :
      (wait : Wait) (cid m : String) (a a' : Agent os.World)
      → get cid a.sandbox.container_mounts ≡ some (m ∷ [])
      → has m a.sandbox.storages ≡ true
      → do_remove_container wait cid a ≢ (ok tt, a')
  unfolding do_remove_container
  do_remove_container-storage unlimited cid m a a' =
      removal_fails cid m (destroy_container cid) a a' refl
  do_remove_container-storage in_time cid m a a' =
      removal_fails cid m (destroy_in_thread in_time cid) a a' (unfold destroy_in_thread in refl)
  do_remove_container-storage late cid m a a' =
      removal_fails cid m (destroy_in_thread late cid) a a' (unfold destroy_in_thread in refl)
