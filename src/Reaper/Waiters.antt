-- ===== src/Reaper/Waiters.antt =====
-- The reaper together with a request that waits (src/main.rs and `do_wait_process` of src/grpc.rs).
use kata_rust_agent.Base.{
  ℕ, String, false, none, some, [], ◌∷◌, ◌≡◌, ◌≢◌, refl, sym, ap, ◌∙◌, arith, inl, inr, Bool-cases,
  Option-cases, ℤ, str_eq, eq_iff,
}
use kata_rust_agent.Base.Dict.{Dict, get, get_cons}
use kata_rust_agent.Base.Exec.{Outcome, ok, panic}
use kata_rust_agent.Base.Exec.Laws.{after}
use kata_rust_agent.Os.{Os}
use kata_rust_agent.Rustjail.Process.{Process, get_pid, update_pid}
use kata_rust_agent.Rustjail.Container.{LinuxContainer}
use kata_rust_agent.Sandbox.{find_in, find_process}
use kata_rust_agent.Sandbox.Agent.{Agent}
use kata_rust_agent.Grpc.Streams as Streams
use kata_rust_agent.Grpc.Streams.{Found, do_wait_process}
use kata_rust_agent.Grpc.Streams.Waiting.{do_wait_process_lem}
use kata_rust_agent.Reaper.{exited, with_code, set_code, reap_child}
use kata_rust_agent.Reaper.Laws.{update_pid-same, record_code_lem, reap_child_step}

-- the container with the code of one of its processes
abbrev pub coded_container : ℤ → ℤ → Process → LinuxContainer → LinuxContainer
coded_container pid code p c = record c {
  processes = update_pid pid (with_code code p) c.processes;
}

find_none :
    (pid : ℤ) (j : String) (c : LinuxContainer) (m : Dict LinuxContainer)
    → get_pid pid c.processes ≡ none
    → find_in pid ((j, c) ∷ m) ≡ find_in pid m
unfolding find_in
find_none pid j c m gone = rw (gone, find_in) refl

find_some :
    (pid : ℤ) (j : String) (c : LinuxContainer) (p : Process) (m : Dict LinuxContainer)
    → get_pid pid c.processes ≡ some p
    → find_in pid ((j, c) ∷ m) ≡ some (j, p)
unfolding find_in
find_some pid j c p m there = rw (there, find_in) refl

pub set_code-none :
    (pid code : ℤ) (j : String) (c : LinuxContainer) (m : Dict LinuxContainer)
    → get_pid pid c.processes ≡ none
    → set_code pid code ((j, c) ∷ m) ≡ (j, c) ∷ set_code pid code m
unfolding set_code
set_code-none pid code j c m gone = rw (gone, set_code) refl

pub set_code-some :
    (pid code : ℤ) (j : String) (c : LinuxContainer) (p : Process) (m : Dict LinuxContainer)
    → get_pid pid c.processes ≡ some p
    → set_code pid code ((j, c) ∷ m) ≡ (j, coded_container pid code p c) ∷ m
unfolding set_code
set_code-some pid code j c p m there = rw (there, set_code) refl

-- The container that holds the process gets its code.
set_code-at :
    (pid code : ℤ) (id : String) (p : Process) (c : LinuxContainer) (m : Dict LinuxContainer)
    → find_in pid m ≡ some (id, p)
    → get id m ≡ some c
    → get_pid pid c.processes ≡ some p
    → get id (set_code pid code m) ≡ some (coded_container pid code p c)
set_code-at pid code id p c [] = λ found there alive. absurd (unfold get in ground (arith, there))
set_code-at pid code id p c ((j, c₀) ∷ m) =
    rw (get_cons j id c₀ m) (elim (Bool-cases (str_eq j id)) [
      | inl here ↦ rw here (λ found there alive.
          let same : c₀ ≡ c = ground (arith, there) in
          let alive' : get_pid pid c₀.processes ≡ some p =
            ap (λ (x : LinuxContainer). get_pid pid x.processes) same ∙ alive in
          ap (get id) (set_code-some pid code j c₀ p m alive')
          ∙ rw (get_cons j id (coded_container pid code p c₀) m, here)
              (ap (λ (x : LinuxContainer). some (coded_container pid code p x)) same))
      | inr differ ↦ rw differ (elim (Option-cases (get_pid pid c₀.processes)) [
        | inl gone ↦ λ found there alive.
            ap (get id) (set_code-none pid code j c₀ m gone)
            ∙ rw (get_cons j id c₀ (set_code pid code m), differ)
                (set_code-at pid code id p c m (sym (find_none pid j c₀ m gone) ∙ found) there
                  alive)
        | inr (old, held) ↦ λ found there alive.
            absurd
              (ground (arith, sym (find_some pid j c₀ old m held) ∙ found, eq_iff j id, differ))
      ])
    ])

module _ ⦃os : Os⦄ (cid eid : String) (code : ℤ) (a : Agent os.World) (f : Found)
    (c : LinuxContainer) (p : Process) (pipe : ℕ) where
  reaped_container :
      find_process f.process.pid a.sandbox ≡ some (cid, p)
      → p.exit_pipe_w ≡ some pipe
      → ((fd : ℕ) (w : os.World) → (os.close fd w).0 ≢ panic)
      → get cid a.sandbox.containers ≡ some c
      → get_pid f.process.pid c.processes ≡ some p
      → (w : os.World)
      → get cid
          (after
            (reap_child (exited f.process.pid code))
            (record a { world = w })).sandbox.containers
        ≡ some (coded_container f.process.pid code p c)
  reaped_container found pipe_of calm there alive w =
      let b = record a { world = w } in
      let (v, e) = record_code_lem f.process.pid code cid p pipe b (calm pipe) in
      ap (λ (x : Outcome (Unit {0}) × Agent os.World). get cid x.1.sandbox.containers)
        (reap_child_step f.process.pid code cid p pipe b found pipe_of ∙ e)
      ∙ set_code-at f.process.pid code cid p c a.sandbox.containers (unfold find_process in found)
          there alive

  -- A request that waits for a process of a container, while the reaper learns that this process has
  -- ended, answers the code that the reaper was told.
  pub do_wait_process-reap_child :
      Streams.find_process cid eid false a.sandbox ≡ ok f
      → find_process f.process.pid a.sandbox ≡ some (cid, p)
      → get cid a.sandbox.containers ≡ some c
      → get_pid f.process.pid c.processes ≡ some p
      → p.exit_pipe_w ≡ some pipe
      → ((fd : ℕ) (w : os.World) → (os.close fd w).0 ≢ panic)
      → ((fd n : ℕ) (w : os.World) → (os.read_fd fd n w).0 ≢ panic)
      → (do_wait_process (after (reap_child (exited f.process.pid code))) cid eid a).0 ≡ ok code
  do_wait_process-reap_child found here there alive pipe_of calm read_calm =
      (do_wait_process_lem calm (after (reap_child (exited f.process.pid code))) cid eid a f
        (coded_container f.process.pid code p c) (with_code code p) read_calm found
        (reaped_container here pipe_of calm there alive)
        (update_pid-same f.process.pid p (with_code code p) c.processes alive)).0
