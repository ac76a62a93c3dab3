-- ===== src/Grpc/Create/Requests.antt =====
-- Whole requests on a container that is created, started, or given a further process (src/grpc.rs).
use kata_rust_agent.Base.{
  ℕ, String, true, false, ◌||◌, Option, some, List, ◌++◌, map, All, any, ◌≡◌, refl, sym, ap, ◌∙◌,
  arith, eq_refl, if◌then◌else◌, inl, inr, Option-cases,
}
use mathlib.Core.Path.{subst}
use kata_rust_agent.Base.Dict.{Dict, get, put, get-put}
use kata_rust_agent.Base.Exec.{
  Exec, Outcome, ok, nix, einval, gets, lift, unwrap, or_raise, chain_err, modify, ◌>>=◌, ◌>>◌,
}
use kata_rust_agent.Base.Exec.Keeps.{Keeps, chain_err-Keeps}
use kata_rust_agent.Base.Exec.Laws.{after, bind_ok, read_then, unwrap_state}
use kata_rust_agent.Device.Keeps.{On, sys-On, add_devices-On}
use kata_rust_agent.Mount.Storage.Keeps.{add_storages-On}
use kata_rust_agent.Oci.{Linux, Spec}
use kata_rust_agent.Oci.Process.{OciProcess}
use kata_rust_agent.Os.{Os}
use kata_rust_agent.Device.Names.{Recv, rescan_pci_bus}
use kata_rust_agent.Device.Handlers.{Device, add_devices}
use kata_rust_agent.Mount.Storage.{add_storages}
use kata_rust_agent.Rustjail.Container.{LinuxContainer}
use kata_rust_agent.Rustjail.Join.{Outside}
use kata_rust_agent.Rustjail.Lifecycle.{Ctr, exec}
use kata_rust_agent.Rustjail.Process.{Process, new as new_process}
use kata_rust_agent.Rustjail.Process.Laws.{new-IsFor}
use kata_rust_agent.Rustjail.Start.{run}
use kata_rust_agent.Rustjail.Start.Status.{exec-running, run-status}
use kata_rust_agent.Rustjail.Validator.{validate}
use kata_rust_agent.Sandbox.{Sandbox, get_container}
use kata_rust_agent.Sandbox.Agent.{Agent, sys, on_container}
use kata_rust_agent.Grpc.Namespaces.{update_container_namespaces, is_kind, ns_type_pid}
use kata_rust_agent.Grpc.Namespaces.Laws.{
  Follows, redirected, own_pid_ns, redirected-Follows, update_container_namespaces_lem,
}
use kata_rust_agent.Grpc.Create.{
  CreateContainerRequest, options, with_mounts, setup_bundle, create_and_start, do_create_container,
  do_start_container, do_exec_process,
}
use kata_rust_agent.Grpc.Create.Laws.{find, IsCreated, agent_then, create_and_start-IsCreated}

-- a specification whose namespaces are those that the sandbox dictates
abbrev pub IsDictated : Sandbox → Spec → Type 0
IsDictated s spec =
    (l : Linux) × (spec.linux ≡ some l)
    × All (Follows s) l.namespaces
    × ((any (is_kind ns_type_pid) l.namespaces || s.sandbox_pid_ns) ≡ true)

update_container_namespaces-IsDictated :
    (s : Sandbox) (oci spec : Spec)
    → update_container_namespaces s oci ≡ ok spec
    → IsDictated s spec
unfolding update_container_namespaces
update_container_namespaces-IsDictated s oci spec h = elim (Option-cases oci.linux) [
  | inl gone ↦ absurd (let h1 = rw gone at h in ground (arith, h1))
  | inr (l, there) ↦
      let nss = map (redirected s) l.namespaces ++ own_pid_ns s l.namespaces in
      let (follow, pid) = redirected-Follows s l.namespaces in
      let updated : Spec = record oci { linux = some (record l { namespaces = nss }) } in
      let same : ok updated ≡ ok spec = sym (update_container_namespaces_lem s oci l there) ∙ h in
      let equal : updated ≡ spec = ground (arith, same) in
      subst (IsDictated s) equal (record l { namespaces = nss }, refl, follow, pid)
]

module _ ⦃os : Os⦄ where
  container_after :
      (cid : String) (x : Outcome (Unit {0}) × Ctr os.World) (a a' : Agent os.World)
      → Path
          (Outcome (Unit {0}) × Agent os.World)
          (
            x.0,
            record a {
              sandbox = record a.sandbox { containers = put cid x.1.ctr a.sandbox.containers };
              world = x.1.world;
            },
          )
          (ok tt, a')
      → (x ≡ (ok tt, x.1)) × (find cid a' ≡ some x.1.ctr)
  container_after cid x a a' h = (
    (λ i. (ap (λ (y : Outcome (Unit {0}) × Agent os.World). y.0) h i, x.1)),
    ap (λ (y : Outcome (Unit {0}) × Agent os.World). get cid y.1.sandbox.containers) (sym h)
        ∙ get-put cid cid x.1.ctr a.sandbox.containers
        ∙ ap (λ b. if b then some x.1.ctr else get cid a.sandbox.containers) (eq_refl cid),
  )

  -- A container that a request starts is running after it.
  pub do_start_container-running :
      (cid : String) (a a' : Agent os.World)
      → do_start_container cid a ≡ (ok tt, a')
      → (c : LinuxContainer) × (find cid a' ≡ some c) × (c.status ≡ some "running")
  unfolding do_start_container on_container
  do_start_container-running cid a a' h =
      let go : LinuxContainer → Exec (Agent os.World) (Unit {0}) = λ c. on_container cid c exec in
      let (c, t, _, h1) =
        bind_ok (or_raise (get_container cid a.sandbox) (nix einval)) go a tt a' h in
      let x = exec (record { ctr = c; world = t.world }) in
      let (done, found) = container_after cid x t a' h1 in
      (x.1.ctr, found, exec-running (record { ctr = c; world = t.world }) x.1 tt done)

-- the containers, and what a new container takes from the sandbox, are the same
abbrev pub IsAlike : Sandbox → Sandbox → Type 0
IsAlike s t =
    (t.containers ≡ s.containers)
    × (t.shared_utsns ≡ s.shared_utsns)
    × (t.shared_ipcns ≡ s.shared_ipcns)
    × (t.sandbox_pid_ns ≡ s.sandbox_pid_ns)
    × (t.no_pivot_root ≡ s.no_pivot_root)

IsAlike-trans : (s t u : Sandbox) → IsAlike s t → IsAlike t u → IsAlike s u
IsAlike-trans s t u (a, b, c, d, e) (f, g, h, i, j) = (f ∙ a, g ∙ b, h ∙ c, i ∙ d, j ∙ e)

kept-ok :
    {S A : Type 0} (P : S → Type 0) (m : Exec S A)
    → Keeps P m
    → (s t : S) (x : A) → m s ≡ (ok x, t)
    → P s
    → P t
kept-ok {A = A} P m keeps s t x h before = subst (λ (y : Outcome A × _). P y.1) h (keeps s before)

module _ ⦃os : Os⦄ (ext : Outside) where
  module _ (show_device : Device → String) (recv : Recv)
      (save : Spec → String → Exec os.World (Unit {0})) where
    ending :
        (cid eid : String) (oci : Spec) (t a' : Agent os.World)
        → (lift (update_container_namespaces t.sandbox oci)
              >>= (λ spec. sys (setup_bundle save spec) >> create_and_start ext cid eid spec))
            t
          ≡ (ok tt, a')
        → (spec : Spec) × (b : Agent os.World) × (b.sandbox ≡ t.sandbox)
          × IsDictated b.sandbox spec
          × (validate b.world (options b.sandbox spec) ≡ ok tt)
          × IsCreated cid eid (options b.sandbox spec) b a'
    ending cid eid oci t a' h =
        let rest : Spec → Exec (Agent os.World) (Unit {0}) =
          λ spec. sys (setup_bundle save spec) >> create_and_start ext cid eid spec in
        let (spec, updated, h1) =
          read_then (update_container_namespaces t.sandbox oci) rest t tt a' h in
        agent_then (setup_bundle save spec) (λ _. create_and_start ext cid eid spec) t a' t.sandbox
          refl h1
          (λ _ b _ same h2.
            let (valid, made) = create_and_start-IsCreated ext cid eid spec b a' h2 in
            (
              spec,
              b,
              same,
              subst (λ s. IsDictated s spec) (sym same)
                  (update_container_namespaces-IsDictated t.sandbox oci spec updated),
              valid,
              made,
            ))

    -- the same, with what the sandbox was like before the request
    from_start :
        (cid eid : String) (oci : Spec) (a t a' : Agent os.World)
        → IsAlike a.sandbox t.sandbox
        → (lift (update_container_namespaces t.sandbox oci)
              >>= (λ spec. sys (setup_bundle save spec) >> create_and_start ext cid eid spec))
            t
          ≡ (ok tt, a')
        → (spec : Spec) × (w : os.World) × IsDictated a.sandbox spec
          × (validate w (options a.sandbox spec) ≡ ok tt)
          × IsCreated cid eid (options a.sandbox spec) a a'
    from_start cid eid oci a t a' (containers, uts, ipc, pid, pivot) h =
        let (spec, b, same, found, valid, made) = ending cid eid oci t a' h in
        let G : Sandbox → Type 0 = λ s.
          IsDictated s spec
          × (validate b.world (options s spec) ≡ ok tt)
          × IsCreated cid eid (options s spec) (record b { sandbox = s }) a' in
        let there : G t.sandbox = subst G same (found, valid, made) in
        let (dictated, checked, created) =
          subst G
            (λ i. record t.sandbox {
              containers = containers i;
              shared_utsns = uts i;
              shared_ipcns = ipc i;
              sandbox_pid_ns = pid i;
              no_pivot_root = pivot i;
            })
            there in
        (spec, b.world, dictated, checked, created)

    -- Where the other threads leave the containers and what the sandbox shares as they are while a
    -- request waits for a device, a request that creates a container and succeeds ends with a container
    -- whose namespaces are those that the sandbox dictates and whose configuration, for the sandbox as it
    -- was before the request, was valid when it was made; the container is in the sandbox as created,
    -- with its first process, and the others are as they were before the request.
    pub do_create_container-IsCreated :
        ((n : ℕ) (b : Agent os.World) → IsAlike b.sandbox (after (recv n) b).sandbox)
        → (req : CreateContainerRequest) (a a' : Agent os.World)
        → do_create_container ext show_device recv save req a ≡ (ok tt, a')
        → (spec : Spec) × (w : os.World) × IsDictated a.sandbox spec
          × (validate w (options a.sandbox spec) ≡ ok tt)
          × IsCreated req.container_id req.exec_id (options a.sandbox spec) a a'
    unfolding do_create_container
    do_create_container-IsCreated fair req a a' h =
        let P : Sandbox → Type 0 = IsAlike a.sandbox in
        let free : (m : Dict ℕ) (s : Sandbox) → P s → P (record s { storages = m }) = λ m s k. k in
        let steady : (n : ℕ) → Keeps (On P) (recv n) =
          λ n b k. IsAlike-trans a.sandbox b.sandbox (after (recv n) b).sandbox k (fair n b) in
        let cid = req.container_id in
        let finish : Spec → Exec (Agent os.World) (Unit {0}) =
          λ spec. sys (setup_bundle save spec) >> create_and_start ext cid req.exec_id spec in
        let update : Spec → Sandbox → Exec (Agent os.World) (Unit {0}) =
          λ oci s. lift (update_container_namespaces s oci) >>= finish in
        let look : Spec → Exec (Agent os.World) (Unit {0}) =
          λ oci. gets (λ a. a.sandbox) >>= update oci in
        let store : Spec → List String → Exec (Agent os.World) (Unit {0}) =
          λ oci m. modify (with_mounts cid m) >> look oci in
        let mount : Spec → Exec (Agent os.World) (Unit {0}) =
          λ oci. add_storages recv req.storages >>= store oci in
        let devices : Spec → Exec (Agent os.World) (Unit {0}) =
          λ request. add_devices show_device recv req.devices request >>= mount in
        let rescan : Exec (Agent os.World) (Unit {0}) =
          chain_err "Could not rescan PCI bus" (sys rescan_pci_bus) in
        let (request, t, given, h1) =
          bind_ok (unwrap req.oci) (λ request. rescan >> devices request) a tt a' h in
        let (_, t1, scanned, h2) = bind_ok rescan (λ _. devices request) t tt a' h1 in
        let (oci, t2, added, h3) =
          bind_ok (add_devices show_device recv req.devices request) mount t1 tt a' h2 in
        let (m, t3, mounted, h4) =
          bind_ok (add_storages recv req.storages) (store oci) t2 tt a' h3 in
        let alike : IsAlike a.sandbox t.sandbox =
          subst (λ b. IsAlike a.sandbox b.sandbox) (sym (unwrap_state req.oci request a t given))
            (refl, refl, refl, refl, refl) in
        let alike1 =
          kept-ok (On P) rescan
            (chain_err-Keeps (On P) "Could not rescan PCI bus" (sys rescan_pci_bus)
              (sys-On P rescan_pci_bus))
            t t1 _ scanned alike in
        let alike2 =
          kept-ok (On P) (add_devices show_device recv req.devices request)
            (add_devices-On P recv steady show_device req.devices request) t1 t2 oci added alike1 in
        let alike3 : IsAlike a.sandbox t3.sandbox =
          kept-ok (On P) (add_storages recv req.storages)
            (add_storages-On P free recv steady req.storages) t2 t3 m mounted alike2 in
        from_start cid req.exec_id oci a (with_mounts cid m t3) a' alike3 h4

  -- A request that runs a further process in a container marks the container as created again, whatever
  -- its status was.
  pub do_exec_process-created :
      (cid exec_id : String) (process : Option OciProcess) (a a' : Agent os.World)
      → do_exec_process ext cid exec_id process a ≡ (ok tt, a')
      → (c : LinuxContainer) × (find cid a' ≡ some c) × (c.status ≡ some "created")
  unfolding do_exec_process on_container
  do_exec_process-created cid exec_id process a a' h =
      let go : Process → LinuxContainer → Exec (Agent os.World) (Unit {0}) =
        λ p c. on_container cid c (run ext p) in
      let pick : Process → Exec (Agent os.World) (Unit {0}) = λ p.
        gets (λ b. get_container cid b.sandbox) >>= λ found. or_raise found (nix einval) >>= go p in
      let build : OciProcess → Exec (Agent os.World) (Unit {0}) =
        λ ocip. sys (new_process ocip exec_id false) >>= pick in
      let (ocip, t, _, h1) = bind_ok (or_raise process (nix einval)) build a tt a' h in
      agent_then (new_process ocip exec_id false) pick t a' t.sandbox refl h1 (λ p t1 built _ h2.
        let (c, t2, _, h3) =
          bind_ok (or_raise (get_container cid t1.sandbox) (nix einval)) (go p) t1 tt a' h2 in
        let x = run ext p (record { ctr = c; world = t2.world }) in
        let (done, found) = container_after cid x t2 a' h3 in
        let (_, other, _) =
          new-IsFor ocip exec_id false p t.world (new_process ocip exec_id false t.world).1
            (λ i. (built i, (new_process ocip exec_id false t.world).1)) in
        (
          x.1.ctr,
          found,
          run-status ext p (record { ctr = c; world = t2.world }) x.1 done
              ∙ ap (λ b. some (if b then "running" else "created")) other,
        ))
