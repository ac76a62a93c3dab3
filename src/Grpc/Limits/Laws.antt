-- ===== src/Grpc/Limits/Laws.antt =====
-- What an update of a container's limits leaves (`update_container` of src/grpc.rs).
use kata_rust_agent.Base.{
  ℕ, String, true, false, Option, none, some, ◌≡◌, refl, sym, arith, ap, ◌∙◌, str_eq, eq_refl,
}
use mathlib.Core.Path.{subst}
use kata_rust_agent.Base.Dict.{get, put, get-put}
use kata_rust_agent.Base.Exec.{Exec, Outcome, ok, err, panic, pure, unwrap, attempt, modify, ◌>>=◌}
use kata_rust_agent.Base.Exec.Laws.{bind_ok, unwrap_state, unwrap_then}
use kata_rust_agent.Oci.{Spec, Linux}
use kata_rust_agent.Oci.Resources.{LinuxResources}
use kata_rust_agent.Os.{Os}
use kata_rust_agent.Rustjail.Container.{LinuxContainer, Manager}
use kata_rust_agent.Rustjail.Lifecycle.{Ctr, sys}
use kata_rust_agent.Rustjail.Cgroups.Manager.{set as set_groups}
use kata_rust_agent.Rustjail.Limits.{with_resources, set_limits}
use kata_rust_agent.Sandbox.Agent.{Agent, on_container}
use kata_rust_agent.Grpc.Limits.{or_internal, update_container}

abbrev pub resources_of_linux : Option Linux → Option LinuxResources
resources_of_linux none = none
resources_of_linux (some l) = l.resources

abbrev pub resources_of_spec : Option Spec → Option LinuxResources
resources_of_spec none = none
resources_of_spec (some s) = resources_of_linux s.linux

-- the limits that a container is recorded with
abbrev pub resources_of : LinuxContainer → Option LinuxResources
resources_of c = resources_of_spec c.config.spec

module _ ⦃os : Os⦄ (depth : ℕ) (r : LinuxResources) where
  -- the limits are written to the groups that the container has
  abbrev pub IsApplied : Option Manager → os.World → os.World → Type 0
  IsApplied none w w' = w' ≡ w
  IsApplied (some m) w w' = set_groups depth m r true w ≡ (ok tt, w')

  abbrev write_groups : Option Manager → Exec (Ctr os.World) (Unit {0})
  write_groups o = elim o [ none ↦ pure tt | some m ↦ sys (set_groups depth m r true) ]

  write_groups-IsApplied :
      (o : Option Manager) (s t : Ctr os.World)
      → write_groups o s ≡ (ok tt, t)
      → IsApplied o s.world t.world
  unfolding sys
  write_groups-IsApplied none s t h =
      ap (λ (x : Outcome (Unit {0}) × Ctr os.World). x.1.world) (sym h)
  write_groups-IsApplied (some m) s t h =
      ap (λ (x : Outcome (Unit {0}) × Ctr os.World). (x.0, x.1.world)) h

  set_limits-ok :
      (s s' : Ctr os.World)
      → set_limits depth r s ≡ (ok tt, s')
      → (resources_of s'.ctr ≡ some r) × IsApplied s.ctr.cgroup_manager s.world s'.world
  unfolding set_limits
  set_limits-ok s s' h =
      let c = s.ctr in
      let apply : Exec (Ctr os.World) (Unit {0}) = write_groups c.cgroup_manager in
      let put_in : Spec → Linux → Exec (Ctr os.World) (Unit {0}) =
        λ spec linux. modify (λ t. record t { ctr = with_resources t.ctr spec linux r }) in
      let find : Spec → Exec (Ctr os.World) (Unit {0}) =
        λ spec. unwrap spec.linux >>= put_in spec in
      let (_, t, written, h1) = bind_ok apply (λ _. unwrap c.config.spec >>= find) s tt s' h in
      let (spec, t1, found, h2) = bind_ok (unwrap c.config.spec) find t tt s' h1 in
      let (linux, t2, there, h3) = bind_ok (unwrap spec.linux) (put_in spec) t1 tt s' h2 in
      let same : s'.world ≡ t.world =
        ap (λ (x : Outcome (Unit {0}) × Ctr os.World). x.1.world) (sym h3)
        ∙ ap (λ (u : Ctr os.World). u.world) (unwrap_state spec.linux linux t1 t2 there)
        ∙ ap (λ (u : Ctr os.World). u.world) (unwrap_state c.config.spec spec t t1 found) in
      (
        ap (λ (x : Outcome (Unit {0}) × Ctr os.World). resources_of x.1.ctr) (sym h3),
        subst (IsApplied c.cgroup_manager s.world) (sym same)
            (write_groups-IsApplied c.cgroup_manager s t written),
      )

  -- what an update is to leave
  abbrev pub IsUpdated : String → Agent os.World → Agent os.World → Type 0
  IsUpdated cid a a' =
      ((c : LinuxContainer) × (get cid a'.sandbox.containers ≡ some c) × (resources_of c ≡ some r))
      × ((c : LinuxContainer) × (get cid a.sandbox.containers ≡ some c)
          × IsApplied c.cgroup_manager a.world a'.world)
      × ((id : String)
          → str_eq cid id ≡ false
          → get id a'.sandbox.containers ≡ get id a.sandbox.containers)

  -- the agent after a call that left a container as `u`
  abbrev store : String → Ctr os.World → Agent os.World → Agent os.World
  store cid u a = record a {
    sandbox = record a.sandbox { containers = put cid u.ctr a.sandbox.containers };
    world = u.world;
  }

  store-IsUpdated :
      (cid : String) (c : LinuxContainer) (u : Ctr os.World) (a : Agent os.World)
      → get cid a.sandbox.containers ≡ some c
      → (resources_of u.ctr ≡ some r) × IsApplied c.cgroup_manager a.world u.world
      → IsUpdated cid a (store cid u a)
  store-IsUpdated cid c u a there (h, applied) = (
    (u.ctr, rw (get-put cid cid u.ctr a.sandbox.containers, eq_refl cid) refl, h),
    (c, there, applied),
    λ id differ. rw (get-put cid id u.ctr a.sandbox.containers, differ) refl,
  )

  update-IsUpdated :
      (cid : String) (c : LinuxContainer) (o : Outcome (Unit {0})) (u : Ctr os.World)
      (a a' : Agent os.World)
      → get cid a.sandbox.containers ≡ some c
      → (o ≡ ok tt → (resources_of u.ctr ≡ some r) × IsApplied c.cgroup_manager a.world u.world)
      → (attempt (λ (b : Agent os.World). (o, store cid u b)) >>= or_internal) a ≡ (ok tt, a')
      → IsUpdated cid a a'
  update-IsUpdated cid c (ok _) u a a' there done h =
      subst (IsUpdated cid a) (ap (λ (x : Outcome (Unit {0}) × Agent os.World). x.1) h)
        (store-IsUpdated cid c u a there (done refl))
  update-IsUpdated cid c (err e) u a a' there done h =
      absurd (ground (arith, ap (λ (x : Outcome (Unit {0}) × Agent os.World). x.0) h))
  update-IsUpdated cid c panic u a a' there done h =
      absurd (ground (arith, ap (λ (x : Outcome (Unit {0}) × Agent os.World). x.0) h))

  -- An update that succeeds has written the limits that were asked for to the cgroups of the container, as
  -- `set` of the manager does it, if it has any, and leaves the container recorded with them and every
  -- other container as it was.
  pub update_container-IsUpdated :
      (cid : String) (a a' : Agent os.World)
      → update_container depth cid (some r) a ≡ (ok tt, a')
      → IsUpdated cid a a'
  unfolding update_container on_container
  update_container-IsUpdated cid a a' h =
      let try : LinuxContainer → Exec (Agent os.World) (Unit {0}) =
        λ c. attempt (on_container cid c (set_limits depth r)) >>= or_internal in
      let (c, found, h1) = unwrap_then (get cid a.sandbox.containers) try a tt a' h in
      let x = set_limits depth r (record { ctr = c; world = a.world }) in
      update-IsUpdated cid c x.0 x.1 a a' found
        (λ done. set_limits-ok (record { ctr = c; world = a.world }) x.1 (λ i. (done i, x.1))) h1
