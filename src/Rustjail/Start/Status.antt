-- ===== src/Rustjail/Start/Status.antt =====
-- The status of a container after `exec` and `run` (rustjail/src/container.rs).
use Prim.Native.String.{◌++◌}
use kata_rust_agent.Base.{ℕ, some, [], ◌∷◌, if◌then◌else◌, ◌≡◌, sym, ap, ◌∙◌, Bool-cases, inl, inr}
use kata_rust_agent.Base.Exec.{Exec, Outcome, ok, modify, ◌>>◌}
use kata_rust_agent.Base.Exec.Laws.{bind_ok, then_ok}
use kata_rust_agent.Os.{Os}
use kata_rust_agent.Rustjail.Container.{LinuxContainer}
use kata_rust_agent.Rustjail.Join.{Outside, optional}
use kata_rust_agent.Rustjail.Lifecycle.{Ctr, sys, exec_fifo_filename, exec}
use kata_rust_agent.Rustjail.Process.{Process}
use kata_rust_agent.Rustjail.Start.{start, run}
use kata_rust_agent.Rustjail.Start.Laws.{sys_ctr, start-IsStarted}

module _ ⦃os : Os⦄ where
  -- `exec` ends with the container marked as running
  pub exec-running :
      (s s' : Ctr os.World) (u : Unit {0}) → exec s ≡ (ok u, s') → s'.ctr.status ≡ some "running"
  unfolding exec
  exec-running s s' u h =
      let c = s.ctr in
      let mark : Exec (Ctr os.World) (Unit {0}) = modify (λ t. record t {
        ctr = record t.ctr { init_process_start_time = os.now t.world; status = some "running" };
      }) in
      let finish : ℕ → Exec (Ctr os.World) (Unit {0}) = λ fd. mark >> sys (os.close fd) in
      let poke : ℕ → Exec (Ctr os.World) (Unit {0}) =
        λ fd. sys (os.write_fd fd (0 ∷ [])) >> finish fd in
      let (fd, t, _, h1) =
        bind_ok (sys (os.open_fd (c.root ++ "/" ++ exec_fifo_filename))) poke s u s' h in
      let (_, t1, _, h2) = bind_ok (sys (os.write_fd fd (0 ∷ []))) (λ _. finish fd) t u s' h1 in
      let (_, t2, marked, h3) = bind_ok mark (λ _. sys (os.close fd)) t1 u s' h2 in
      ap (λ (d : LinuxContainer). d.status) (sys_ctr (os.close fd) t2 s' u h3)
      ∙ ap (λ (x : Outcome (Unit {0}) × Ctr os.World). x.1.ctr.status) (sym marked)

  -- A run that succeeds leaves the container running if the process is its first, and marked as created
  -- again if it is another.
  pub run-status :
      (ext : Outside) (p : Process) (s s' : Ctr os.World)
      → run ext p s ≡ (ok tt, s')
      → s'.ctr.status ≡ some (if p.init then "running" else "created")
  unfolding run
  run-status ext p s s' h =
      let first : Exec (Ctr os.World) (Unit {0}) =
        exec >> modify (λ t. record t { ctr = record t.ctr { status = some "running" } }) in
      let (_, t, started, h1) = bind_ok (start ext p) (λ _. optional p.init first) s tt s' h in
      elim (Bool-cases p.init) [
        | inl init ↦
            let run_first : (first t) ≡ (ok tt, s') = rw init at h1 in
            let (t1, h2) =
              then_ok exec
                (modify (λ u. record u { ctr = record u.ctr { status = some "running" } })) t tt s'
                run_first in
            rw init (ap (λ (x : Outcome (Unit {0}) × Ctr os.World). x.1.ctr.status) (sym h2))
        | inr other ↦
            let same : Path (Outcome (Unit {0}) × Ctr os.World) (ok tt, t) (ok tt, s') =
              rw other at h1 in
            rw other (
              ap (λ (x : Outcome (Unit {0}) × Ctr os.World). x.1.ctr.status) (sym same)
              ∙ (start-IsStarted ext p s t started).2)
      ]
