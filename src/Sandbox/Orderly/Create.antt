-- ===== src/Sandbox/Orderly/Create.antt =====
-- The requests that create a container, start it and run a process in it keep the sandbox in order.
use kata_rust_agent.Base.{ℕ, String, true, false, Option, none, some, List, All, ◌≡◌, refl, sym, ap}
use mathlib.Core.Path.{subst}
use kata_rust_agent.Base.Dict.{get}
use kata_rust_agent.Base.Exec.{
  Exec, Outcome, ok, err, panic, Error, nix, einval, gets, lift, unwrap, or_raise, chain_err,
  modify, ◌>>=◌, ◌>>◌,
}
use kata_rust_agent.Base.Exec.Laws.{after}
use kata_rust_agent.Base.Exec.Keeps.{
  Keeps, bind-Keeps, bind-Keeps_known, then-Keeps, unwrap-Keeps, or_raise-Keeps, chain_err-Keeps,
}
use kata_rust_agent.Oci.{Spec}
use kata_rust_agent.Oci.Process.{OciProcess}
use kata_rust_agent.Os.{Os}
use kata_rust_agent.Device.Names.{Recv, rescan_pci_bus}
use kata_rust_agent.Device.Handlers.{Device, add_devices}
use kata_rust_agent.Device.Keeps.{add_devices-On}
use kata_rust_agent.Mount.Storage.{add_storages}
use kata_rust_agent.Mount.Storage.Keeps.{add_storages-On}
use kata_rust_agent.Grpc.Create.{
  CreateContainerRequest, new_from, on_new, options, with_mounts, with_container, setup_bundle,
  create_and_start, do_create_container, do_start_container, do_exec_process,
}
use kata_rust_agent.Grpc.Create.Laws.{on_new-ok}
use kata_rust_agent.Grpc.Namespaces.{update_container_namespaces}
use kata_rust_agent.Grpc.Sandboxes.{container_base}
use kata_rust_agent.Rustjail.Container.{LinuxContainer}
use kata_rust_agent.Rustjail.Create.{new}
use kata_rust_agent.Rustjail.Create.Laws.{new-IsNew}
use kata_rust_agent.Rustjail.Join.{Outside}
use kata_rust_agent.Rustjail.Lifecycle.{Ctr, exec}
use kata_rust_agent.Rustjail.Process.{Process, new as new_process}
use kata_rust_agent.Rustjail.Start.{start, run}
use kata_rust_agent.Sandbox.{Sandbox, get_container, add_container}
use kata_rust_agent.Sandbox.Agent.{Agent, sys, on_container}
use kata_rust_agent.Sandbox.Orderly.{IsNumbered, IsFiled, IsOrderly, All-get, All-put}
use kata_rust_agent.Sandbox.Orderly.State.{InOrder, sys-InOrder}
use kata_rust_agent.Sandbox.Orderly.Methods.{Filed, start-Filed, run-Filed, exec-Filed}

pub on_container-InOrder :
    {W A : Type 0} (cid : String) (c : LinuxContainer) (m : Exec (Ctr W) A)
    → Keeps (Filed cid) m
    → IsFiled (cid, c)
    → Keeps InOrder (on_container cid c m)
unfolding on_container
on_container-InOrder cid c m hm own a h =
    let t = after m (record { ctr = c; world = a.world }) in
    All-put cid t.ctr a.sandbox.containers (hm (record { ctr = c; world = a.world }) own) h

module _ {W A : Type 0} (cid : String) (k : LinuxContainer → Exec (Agent W) A)
    (hk : (c : LinuxContainer) → IsFiled (cid, c) → Keeps InOrder (k c)) where
  from_raise :
      (o : Option LinuxContainer) (e : Error) (a : Agent W)
      → ((c : LinuxContainer) → o ≡ some c → IsFiled (cid, c))
      → InOrder a
      → InOrder (after (or_raise o e >>= k) a)
  from_raise none e a filed h = h
  from_raise (some c) e a filed h = hk c (filed c refl) a h

  from_unwrap :
      (o : Option LinuxContainer) (a : Agent W)
      → ((c : LinuxContainer) → o ≡ some c → IsFiled (cid, c))
      → InOrder a
      → InOrder (after (unwrap o >>= k) a)
  from_unwrap none a filed h = h
  from_unwrap (some c) a filed h = hk c (filed c refl) a h

  -- a handler that goes on with the container it finds
  pub found-InOrder :
      (e : Error)
      → Keeps InOrder
          (gets (λ (a : Agent W). get_container cid a.sandbox) >>= λ found. or_raise found e >>= k)
  unfolding get_container
  found-InOrder e a h =
      from_raise (get cid a.sandbox.containers) e a
        (λ c there. All-get cid c a.sandbox.containers h there) h

  pub unwrapped-InOrder :
      Keeps InOrder
        (gets (λ (a : Agent W). get cid a.sandbox.containers) >>= λ found. unwrap found >>= k)
  unwrapped-InOrder a h =
      from_unwrap (get cid a.sandbox.containers) a
        (λ c there. All-get cid c a.sandbox.containers h there) h

module _ ⦃os : Os⦄ where
  abbrev Step : Type 0 → Type 0
  Step A = Exec (Agent os.World) A

  pub do_start_container-InOrder : (cid : String) → Keeps InOrder (do_start_container cid)
  unfolding do_start_container
  do_start_container-InOrder cid =
      found-InOrder cid (λ c. on_container cid c exec)
        (λ c own. on_container-InOrder cid c exec (exec-Filed cid) own) (nix einval)

  on_new-InOrder :
      (c : LinuxContainer) (m : Exec (Ctr os.World) (Unit {0})) → Keeps InOrder (on_new c m)
  unfolding on_new
  on_new-InOrder c m a h = from (m (record { ctr = c; world = a.world })) h
    where
      from : (x : Outcome (Unit {0}) × Ctr os.World) → InOrder a → InOrder (new_from x a).1
      from (ok _, t) k = k
      from (err e, t) k = k
      from (panic, t) k = k

  module _ (ext : Outside) where
    pub do_exec_process-InOrder :
        (cid eid : String) (process : Option OciProcess)
        → Keeps InOrder (do_exec_process ext cid eid process)
    unfolding do_exec_process
    do_exec_process-InOrder cid eid process =
        let go : Process → LinuxContainer → Step (Unit {0}) =
          λ p c. on_container cid c (run ext p) in
        let pick : Process → Step (Unit {0}) = λ p.
          gets (λ b. get_container cid b.sandbox) >>= λ found.
          or_raise found (nix einval) >>= go p in
        let build : OciProcess → Step (Unit {0}) =
          λ ocip. sys (new_process ocip eid false) >>= pick in
        bind-Keeps InOrder (or_raise process (nix einval)) build
          (or_raise-Keeps InOrder process (nix einval))
          (λ ocip.
            bind-Keeps InOrder (sys (new_process ocip eid false)) pick
              (sys-InOrder (new_process ocip eid false))
              (λ p.
                found-InOrder cid (go p)
                  (λ c own. on_container-InOrder cid c (run ext p) (run-Filed cid ext p) own)
                  (nix einval)))

    IsFiled-new :
        (cid : String) (s : Sandbox) (oci : Spec) (a b : Agent os.World) (c : LinuxContainer)
        → sys (new cid container_base (options s oci)) a ≡ (ok c, b)
        → IsFiled (c.id, c)
    unfolding sys
    IsFiled-new cid s oci a b c made =
        let x = new cid container_base (options s oci) a.world in
        let (_, (_, _, _, empty, _)) =
          new-IsNew cid container_base (options s oci) c a.world x.1
            (λ i. (ap (λ (y : Outcome LinuxContainer × Agent os.World). y.0) made i, x.1)) in
        (refl, subst (All IsNumbered) (sym empty) tt)

    started-IsFiled :
        (c d : LinuxContainer) (p : Process) (a b : Agent os.World)
        → IsFiled (c.id, c)
        → on_new c (start ext p) a ≡ (ok d, b)
        → IsFiled (d.id, d)
    started-IsFiled c d p a b own ran =
        let (t, done, same, _) = on_new-ok c (start ext p) a b d ran in
        let s0 : Ctr os.World = record { ctr = c; world = a.world } in
        let kept : Filed c.id (after (start ext p) s0) = start-Filed c.id ext p s0 own in
        let there : Filed c.id t =
          subst (Filed c.id) (ap (λ (x : Outcome (Unit {0}) × Ctr os.World). x.1) done) kept in
        (refl, (subst (λ x. IsFiled (c.id, x)) same there).1)

    with_container-InOrder :
        (c : LinuxContainer) (a : Agent os.World)
        → IsFiled (c.id, c)
        → InOrder a
        → InOrder (with_container c a)
    unfolding add_container
    with_container-InOrder c a own h = All-put c.id c a.sandbox.containers own h

    create_and_start-InOrder :
        (cid eid : String) (oci : Spec) → Keeps InOrder (create_and_start ext cid eid oci)
    unfolding create_and_start
    create_and_start-InOrder cid eid oci s h =
        let store : LinuxContainer → Step (Unit {0}) = λ d. modify (with_container d) in
        let launch : LinuxContainer → Process → Step (Unit {0}) =
          λ c p. on_new c (start ext p) >>= store in
        let build : LinuxContainer → OciProcess → Step (Unit {0}) =
          λ c process. sys (new_process process eid true) >>= launch c in
        let find : LinuxContainer → Step (Unit {0}) =
          λ c. or_raise oci.process (nix einval) >>= build c in
        let make : Step LinuxContainer = sys (new cid container_base (options s.sandbox oci)) in
        bind-Keeps_known InOrder make find
          (sys-InOrder (new cid container_base (options s.sandbox oci)))
          (λ a c b made.
            bind-Keeps InOrder (or_raise oci.process (nix einval)) (build c)
              (or_raise-Keeps InOrder oci.process (nix einval))
              (λ process.
                bind-Keeps InOrder (sys (new_process process eid true)) (launch c)
                  (sys-InOrder (new_process process eid true))
                  (λ p.
                    bind-Keeps_known InOrder (on_new c (start ext p)) store
                      (on_new-InOrder c (start ext p))
                      (λ a1 d b1 ran k.
                        with_container-InOrder d b1
                          (started-IsFiled c d p a1 b1 (IsFiled-new cid s.sandbox oci a b c made)
                            ran)
                          k)))
              b)
          s h

    module _ (show_device : Device → String) (recv : Recv)
        (save : Spec → String → Exec os.World (Unit {0}))
        (fair : (n : ℕ) → Keeps InOrder (recv n)) where
      pub do_create_container-InOrder :
          (req : CreateContainerRequest)
          → Keeps InOrder (do_create_container ext show_device recv save req)
      unfolding do_create_container
      do_create_container-InOrder req =
          let cid = req.container_id in
          let finish : Spec → Step (Unit {0}) =
            λ spec. sys (setup_bundle save spec) >> create_and_start ext cid req.exec_id spec in
          let update : Spec → Sandbox → Step (Unit {0}) =
            λ oci s. lift (update_container_namespaces s oci) >>= finish in
          let look : Spec → Step (Unit {0}) = λ oci. gets (λ a. a.sandbox) >>= update oci in
          let store : Spec → List String → Step (Unit {0}) =
            λ oci m. modify (with_mounts cid m) >> look oci in
          let mount : Spec → Step (Unit {0}) =
            λ oci. add_storages recv req.storages >>= store oci in
          let devices : Spec → Step (Unit {0}) =
            λ request. add_devices show_device recv req.devices request >>= mount in
          let rescan : Step (Unit {0}) =
            chain_err "Could not rescan PCI bus" (sys rescan_pci_bus) in
          bind-Keeps InOrder (unwrap req.oci) (λ request. rescan >> devices request)
            (unwrap-Keeps InOrder req.oci)
            (λ request.
              then-Keeps InOrder rescan (devices request)
                (chain_err-Keeps InOrder "Could not rescan PCI bus" (sys rescan_pci_bus)
                  (sys-InOrder rescan_pci_bus))
                (bind-Keeps InOrder (add_devices show_device recv req.devices request) mount
                  (add_devices-On IsOrderly recv fair show_device req.devices request)
                  (λ oci.
                    bind-Keeps InOrder (add_storages recv req.storages) (store oci)
                      (add_storages-On IsOrderly (λ m s h. h) recv fair req.storages)
                      (λ m.
                        then-Keeps InOrder (modify (with_mounts cid m)) (look oci) (λ a k. k)
                          (bind-Keeps InOrder (gets (λ a. a.sandbox)) (update oci) (λ a k. k)
                            (λ s.
                              bind-Keeps InOrder (lift (update_container_namespaces s oci)) finish
                                (λ a k. k)
                                (λ spec.
                                  then-Keeps InOrder (sys (setup_bundle save spec))
                                    (create_and_start ext cid req.exec_id spec)
                                    (sys-InOrder (setup_bundle save spec))
                                    (create_and_start-InOrder cid req.exec_id spec))))))))
