-- ===== src/Grpc/Create/Laws.antt =====
-- What a request that creates a container, starts it or runs a process in it leaves (src/grpc.rs).
use kata_rust_agent.Base.{
  String, true, false, Option, some, ◌≡◌, refl, sym, ap, ◌∙◌, arith, str_eq, eq_refl, if◌then◌else◌,
}
use mathlib.Core.Path.{subst}
use kata_rust_agent.Base.Dict.{get, put, get-put}
use kata_rust_agent.Base.Exec.{Exec, Outcome, ok, err, panic, nix, einval, or_raise, modify, ◌>>=◌}
use kata_rust_agent.Base.Exec.Laws.{bind_ok, or_raise_state}
use kata_rust_agent.Oci.{Spec}
use kata_rust_agent.Oci.Process.{OciProcess}
use kata_rust_agent.Os.{Os}
use kata_rust_agent.Rustjail.Container.{Config, LinuxContainer}
use kata_rust_agent.Rustjail.Create.{new}
use kata_rust_agent.Rustjail.Create.Laws.{IsNew, new-IsNew}
use kata_rust_agent.Rustjail.Join.{Outside}
use kata_rust_agent.Rustjail.Lifecycle.{Ctr}
use kata_rust_agent.Rustjail.Process.{Process, get_pid, new as new_process}
use kata_rust_agent.Rustjail.Process.Laws.{new-IsFor}
use kata_rust_agent.Rustjail.Start.{start}
use kata_rust_agent.Rustjail.Start.Laws.{IsStarted, start-IsStarted}
use kata_rust_agent.Rustjail.Validator.{validate}
use kata_rust_agent.Sandbox.{Sandbox, add_container}
use kata_rust_agent.Sandbox.Agent.{Agent, sys}
use kata_rust_agent.Grpc.Sandboxes.{container_base}
use kata_rust_agent.Grpc.Create.{on_new, new_from, options, with_container, create_and_start}

abbrev pub find : {W : Type 0} → String → Agent W → Option LinuxContainer
find cid a = get cid a.sandbox.containers

-- The container is in the sandbox, created, with its first process as its own, and every other container
-- is as it was.
abbrev pub IsCreated : {W : Type 0} → String → String → Config → Agent W → Agent W → Type 0
IsCreated cid eid config a a' =
    ((c : LinuxContainer) × (find cid a' ≡ some c)
      × (c.config ≡ config)
      × (c.status ≡ some "created")
      × (q : Process) × (get_pid c.init_process_pid c.processes ≡ some q)
      × (q.exec_id ≡ eid)
      × (q.pid ≡ c.init_process_pid))
    × ((id : String) → str_eq cid id ≡ false → find id a' ≡ find id a)

module _ ⦃os : Os⦄ where
  pub sys_sandbox :
      {A : Type 0} (m : Exec os.World A) (a a' : Agent os.World) (x : A)
      → sys m a ≡ (ok x, a')
      → ((m a.world).0 ≡ ok x) × (a'.sandbox ≡ a.sandbox)
  unfolding sys
  sys_sandbox {A = A} m a a' x e = (
    ap (λ (y : Outcome A × Agent os.World). y.0) e,
    ap (λ (y : Outcome A × Agent os.World). y.1.sandbox) (sym e),
  )

  pub on_new-ok :
      (c : LinuxContainer) (m : Exec (Ctr os.World) (Unit {0})) (a a' : Agent os.World)
      (c' : LinuxContainer)
      → on_new c m a ≡ (ok c', a')
      → (t : Ctr os.World) × (m (record { ctr = c; world = a.world }) ≡ (ok tt, t))
        × (t.ctr ≡ c')
        × (a'.sandbox ≡ a.sandbox)
  unfolding on_new
  on_new-ok c m a a' c' h = from (m (record { ctr = c; world = a.world })) h
    where
      from :
          (x : Outcome (Unit {0}) × Ctr os.World)
          → new_from x a ≡ (ok c', a')
          → (t : Ctr os.World) × (x ≡ (ok tt, t)) × (t.ctr ≡ c') × (a'.sandbox ≡ a.sandbox)
      from (ok _, t) e = (
        t,
        refl,
        ground (arith, ap (λ (y : Outcome LinuxContainer × Agent os.World). y.0) e),
        ap (λ (y : Outcome LinuxContainer × Agent os.World). y.1.sandbox) (sym e),
      )
      from (err x, t) e =
          absurd (ground (arith, ap (λ (y : Outcome LinuxContainer × Agent os.World). y.0) e))
      from (panic, t) e =
          absurd (ground (arith, ap (λ (y : Outcome LinuxContainer × Agent os.World). y.0) e))

  -- a call of the system in a request, which leaves the sandbox as it was
  pub agent_then :
      {A G : Type 0} (m : Exec os.World A) (k : A → Exec (Agent os.World) (Unit {0}))
      (a a' : Agent os.World) (s : Sandbox)
      → a.sandbox ≡ s
      → (sys m >>= k) a ≡ (ok tt, a')
      → ((x : A) (t : Agent os.World)
          → (m a.world).0 ≡ ok x
          → t.sandbox ≡ s
          → k x t ≡ (ok tt, a')
          → G)
      → G
  agent_then m k a a' s same h rest =
      let (x, t, e, h1) = bind_ok (sys m) k a tt a' h in
      let (done, kept) = sys_sandbox m a t x e in rest x t done (kept ∙ same) h1

  finish-IsCreated :
      (cid eid : String) (config : Config) (p : Process) (c₀ c : LinuxContainer)
      (a t a' : Agent os.World)
      → IsNew cid config c₀
      → IsStarted p c₀ c
      → p.exec_id ≡ eid
      → p.init ≡ true
      → t.sandbox ≡ a.sandbox
      → modify (with_container c) t ≡ (ok tt, a')
      → IsCreated cid eid config a a'
  unfolding add_container
  finish-IsCreated cid eid config p c₀ c a t a' made started named first same h =
      let (id, conf, status, child, q, there, (pid, exec_id, _, _, _), own) = started in
      let own_pid : c.init_process_pid ≡ child = own first in
      let held : a'.sandbox.containers ≡ put cid c a.sandbox.containers =
        ap (λ (y : Outcome (Unit {0}) × Agent os.World). y.1.sandbox.containers) (sym h)
        ∙ ap (λ k. put k c t.sandbox.containers) (id ∙ made.0)
        ∙ ap (λ (s : Sandbox). put cid c s.containers) same in
      (
        (
          c,
          ap (get cid) held
              ∙ get-put cid cid c a.sandbox.containers
              ∙ ap (λ b. if b then some c else get cid a.sandbox.containers) (eq_refl cid),
          conf ∙ made.1,
          status,
          q,
          ap (λ z. get_pid z c.processes) own_pid ∙ there,
          exec_id ∙ named,
          pid ∙ sym own_pid,
        ),
        λ other differ.
            ap (get other) held
            ∙ get-put cid other c a.sandbox.containers
            ∙ ap (λ b. if b then some c else get other a.sandbox.containers) differ,
      )

  -- what is made, started and put into the sandbox
  pub create_and_start-IsCreated :
      (ext : Outside) (cid eid : String) (oci : Spec) (a a' : Agent os.World)
      → create_and_start ext cid eid oci a ≡ (ok tt, a')
      → (validate a.world (options a.sandbox oci) ≡ ok tt)
        × IsCreated cid eid (options a.sandbox oci) a a'
  unfolding create_and_start
  create_and_start-IsCreated ext cid eid oci a a' h =
      let config = options a.sandbox oci in
      let keep : LinuxContainer → Exec (Agent os.World) (Unit {0}) =
        λ c. modify (with_container c) in
      let launch : LinuxContainer → Process → Exec (Agent os.World) (Unit {0}) =
        λ c p. on_new c (start ext p) >>= keep in
      let prepare : LinuxContainer → OciProcess → Exec (Agent os.World) (Unit {0}) =
        λ c process. sys (new_process process eid true) >>= launch c in
      let choose : LinuxContainer → Exec (Agent os.World) (Unit {0}) =
        λ c. or_raise oci.process (nix einval) >>= prepare c in
      agent_then (new cid container_base config) choose a a' a.sandbox refl h (λ c₀ t made same h1.
        let (valid, fresh) =
          new-IsNew cid container_base config c₀ a.world (new cid container_base config a.world).1
            (λ i. (made i, (new cid container_base config a.world).1)) in
        let (process, t1, found, h2) =
          bind_ok (or_raise oci.process (nix einval)) (prepare c₀) t tt a' h1 in
        let same1 : t1.sandbox ≡ a.sandbox =
          ap (λ (u : Agent os.World). u.sandbox)
            (or_raise_state oci.process (nix einval) process t t1 found)
          ∙ same in
        (
          valid,
          agent_then (new_process process eid true) (launch c₀) t1 a' a.sandbox same1 h2
              (λ p t2 built same2 h3.
                let (c, t3, begun, h4) = bind_ok (on_new c₀ (start ext p)) keep t2 tt a' h3 in
                let (u, started, kept, same3) = on_new-ok c₀ (start ext p) t2 t3 c begun in
                let (named, first, _) =
                  new-IsFor process eid true p t1.world (new_process process eid true t1.world).1
                    (λ i. (built i, (new_process process eid true t1.world).1)) in
                finish-IsCreated cid eid config p c₀ c a t3 a' fresh
                  (subst (IsStarted p c₀) kept
                    (start-IsStarted ext p (record { ctr = c₀; world = t2.world }) u started))
                  named first (same3 ∙ same2) h4),
        ))
