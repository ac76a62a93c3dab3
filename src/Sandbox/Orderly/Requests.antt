-- ===== src/Sandbox/Orderly/Requests.antt =====
-- The requests on containers and processes that are there, and the reaper, keep the sandbox in order.
use kata_rust_agent.Base.{
  ℕ, String, Bool, true, false, Option, none, some, [], ◌∷◌, All, ℤ, Option-cases, inl, inr,
  if◌then◌else◌, ◌&&◌, ltb, ◌≡◌, refl,
}
use kata_rust_agent.Base.Dict.{Dict}
use kata_rust_agent.Base.Exec.{
  Exec, Outcome, ok, err, panic, pure, crash, gets, unwrap, attempt, modify, ◌>>=◌, ◌>>◌,
}
use kata_rust_agent.Base.Exec.Keeps.{Keeps, bind-Keeps, then-Keeps, unwrap-Keeps, attempt-Keeps}
use kata_rust_agent.Os.{Os}
use kata_rust_agent.Grpc.Limits.{or_internal, update_container}
use kata_rust_agent.Grpc.Streams.{
  Found, find, find_process, store, effective_signal, signal_found, do_signal_process, await_exit,
  close_quietly, close_all, drop_process, reap_process, reap, wait_found, do_wait_process,
}
use kata_rust_agent.Grpc.Streams.Closing.{without_input, close_input, close_found, close_stdin}
use kata_rust_agent.Grpc.Streams.Closing.Laws.{find_process-found}
use kata_rust_agent.Oci.Resources.{LinuxResources}
use kata_rust_agent.Reaper.{WaitStatus, with_code, set_code, reap_child}
use kata_rust_agent.Reaper.Keeps.{reap_child-Keeps}
use kata_rust_agent.Rustjail.Container.{LinuxContainer}
use kata_rust_agent.Rustjail.Limits.{set_limits}
use kata_rust_agent.Rustjail.Process.{Process, get_pid, update_pid, remove_pid}
use kata_rust_agent.Sandbox.{get_container}
use kata_rust_agent.Sandbox.Agent.{Agent, sys, on_container}
use kata_rust_agent.Sandbox.Orderly.{
  IsFiled, All-get, All-get_process, All-get_pid, All-update_pid, All-remove_pid, All-put,
}
use kata_rust_agent.Sandbox.Orderly.Create.{on_container-InOrder, unwrapped-InOrder}
use kata_rust_agent.Sandbox.Orderly.State.{InOrder, sys-InOrder}
use kata_rust_agent.Sandbox.Orderly.Methods.{set_limits-Filed}

-- a code changes no process's number
pub set_code-IsOrderly :
    (pid code : ℤ) (m : Dict LinuxContainer) → All IsFiled m → All IsFiled (set_code pid code m)
unfolding set_code
set_code-IsOrderly pid code [] h = tt
set_code-IsOrderly pid code ((id, c) ∷ m) ((own, filed), rest) =
    elim (Option-cases (get_pid pid c.processes)) [
      | inl gone ↦ rw (gone, set_code) ((own, filed), set_code-IsOrderly pid code m rest)
      | inr (p, there) ↦
          rw (there, set_code)
            (
              (
                own,
                All-update_pid pid (with_code code p) c.processes
                    (All-get_pid pid p c.processes filed there) filed,
              ),
              rest,
            )
    ]

module _ ⦃os : Os⦄ where
  abbrev Step : Type 0 → Type 0
  Step A = Exec (Agent os.World) A

  find-InOrder : (cid eid : String) (init : Bool) → Keeps InOrder (find cid eid init)
  unfolding find
  find-InOrder cid eid init s h = h

  valid_signal :
      (b : Bool) → Keeps {S = Agent os.World} {A = Unit {0}} InOrder (if b then pure tt else crash)
  valid_signal true s h = h
  valid_signal false s h = h

  pub do_signal_process-InOrder :
      (cid eid : String) (sig : ℕ) → Keeps InOrder (do_signal_process cid eid sig)
  unfolding do_signal_process signal_found
  do_signal_process-InOrder cid eid sig =
      let valid : Step (Unit {0}) = if ltb 0 sig && ltb sig 32 then pure tt else crash in
      let pick : Found → Step ℕ = λ f. gets (λ a. effective_signal f.process sig a.world) in
      let send : Found → ℕ → Step (Unit {0}) = λ f chosen. sys (os.kill f.process.pid chosen) in
      bind-Keeps InOrder (find cid eid true) (λ f. valid >> (pick f >>= send f))
        (find-InOrder cid eid true)
        (λ f.
          then-Keeps InOrder valid (pick f >>= send f) (valid_signal (ltb 0 sig && ltb sig 32)) (
            bind-Keeps InOrder (pick f) (send f) (λ a k. k)
              (λ chosen. sys-InOrder (os.kill f.process.pid chosen))))

  -- a call of the system whose answer is dropped
  dropped-InOrder : {A : Type 0} (m : Exec os.World A) → Keeps InOrder (attempt (sys m) >> pure tt)
  dropped-InOrder m =
      then-Keeps InOrder (attempt (sys m)) (pure tt) (attempt-Keeps InOrder (sys m) (sys-InOrder m))
        (λ a k. k)

  close_quietly-InOrder : (o : Option ℕ) → Keeps InOrder (close_quietly o)
  unfolding close_quietly
  close_quietly-InOrder none s h = h
  close_quietly-InOrder (some fd) s h = dropped-InOrder (os.close fd) s h

  await_exit-InOrder : (o : Option ℕ) → Keeps InOrder (await_exit o)
  unfolding await_exit
  await_exit-InOrder none s h = h
  await_exit-InOrder (some fd) s h = dropped-InOrder (os.read_fd fd 2) s h

  close_all-InOrder : (p : Process) → Keeps InOrder (close_all p)
  unfolding close_all
  close_all-InOrder p =
      let last : Step (Unit {0}) = close_quietly p.term_master >> close_quietly p.exit_pipe_r in
      let third : Step (Unit {0}) = close_quietly p.parent_stderr >> last in
      let second : Step (Unit {0}) = close_quietly p.parent_stdout >> third in
      then-Keeps InOrder (close_quietly p.parent_stdin) second
        (close_quietly-InOrder p.parent_stdin)
        (then-Keeps InOrder (close_quietly p.parent_stdout) third
          (close_quietly-InOrder p.parent_stdout)
          (then-Keeps InOrder (close_quietly p.parent_stderr) last
            (close_quietly-InOrder p.parent_stderr)
            (then-Keeps InOrder (close_quietly p.term_master) (close_quietly p.exit_pipe_r)
              (close_quietly-InOrder p.term_master) (close_quietly-InOrder p.exit_pipe_r))))

  close_input-InOrder :
      (cid : String) (f : Found)
      → IsFiled (cid, f.ctr)
      → f.process.pid ≡ f.pid
      → Keeps InOrder (close_input cid f)
  unfolding close_input
  close_input-InOrder cid f (own, filed) numbered =
      let x = without_input f.process in
      let last : Step (Unit {0}) = modify (store cid f x) in
      then-Keeps InOrder (close_quietly f.process.term_master)
        (close_quietly f.process.parent_stdin >> last) (close_quietly-InOrder f.process.term_master)
        (then-Keeps InOrder (close_quietly f.process.parent_stdin) last
          (close_quietly-InOrder f.process.parent_stdin)
          (λ a k.
            All-put cid (record f.ctr { processes = update_pid f.pid x f.ctr.processes })
              a.sandbox.containers (own, All-update_pid f.pid x f.ctr.processes numbered filed) k))

  close_found-InOrder :
      (cid : String) (o : Outcome Found)
      → ((f : Found) → o ≡ ok f → IsFiled (cid, f.ctr) × (f.process.pid ≡ f.pid))
      → Keeps InOrder (close_found cid o)
  close_found-InOrder cid (ok f) facts s h =
      let (own, numbered) = facts f refl in close_input-InOrder cid f own numbered s h
  close_found-InOrder cid (err e) facts s h = h
  close_found-InOrder cid panic facts s h = h

  pub close_stdin-InOrder : (cid eid : String) → Keeps InOrder (close_stdin cid eid)
  unfolding close_stdin
  close_stdin-InOrder cid eid s h =
      close_found-InOrder cid (find_process cid eid false s.sandbox)
        (λ f e.
          let (there, alive) = find_process-found cid eid s.sandbox f e in
          let own = All-get cid f.ctr s.sandbox.containers h there in
          (own, All-get_process eid f.pid f.process f.ctr.processes own.1 alive))
        s h

  reap_process-InOrder :
      (cid : String) (pid : ℤ) (c : LinuxContainer) (p : Process)
      → IsFiled (cid, c)
      → Keeps InOrder (reap_process cid pid c p)
  unfolding reap_process
  reap_process-InOrder cid pid c p (own, filed) =
      then-Keeps InOrder (close_all p) (modify (drop_process cid pid c) >> pure p.exit_code)
        (close_all-InOrder p)
        (λ a k.
          All-put cid (record c { processes = remove_pid pid c.processes }) a.sandbox.containers
            (own, All-remove_pid pid c.processes filed) k)

  reap-InOrder : (cid : String) (pid : ℤ) → Keeps InOrder (reap cid pid)
  unfolding reap
  reap-InOrder cid pid =
      unwrapped-InOrder cid (λ c. unwrap (get_pid pid c.processes) >>= reap_process cid pid c)
        (λ c own.
          bind-Keeps InOrder (unwrap (get_pid pid c.processes)) (reap_process cid pid c)
            (unwrap-Keeps InOrder (get_pid pid c.processes))
            (λ p. reap_process-InOrder cid pid c p own))

  pub do_wait_process-InOrder :
      (reaped : Agent os.World → Agent os.World) (cid eid : String)
      → ((a : Agent os.World) → InOrder a → InOrder (reaped a))
      → Keeps InOrder (do_wait_process reaped cid eid)
  unfolding do_wait_process wait_found
  do_wait_process-InOrder reaped cid eid kept =
      let wait : Found → Step ℤ = wait_found reaped cid in
      bind-Keeps InOrder (find cid eid false) wait (find-InOrder cid eid false) (λ f.
        let last : Step ℤ = modify reaped >> reap cid f.process.pid in
        then-Keeps InOrder (await_exit f.process.exit_pipe_r) last
          (await_exit-InOrder f.process.exit_pipe_r)
          (then-Keeps InOrder (modify reaped) (reap cid f.process.pid) kept
            (reap-InOrder cid f.process.pid)))

  pub reap_child-InOrder : (status : WaitStatus) → Keeps InOrder (reap_child status)
  reap_child-InOrder = reap_child-Keeps (All IsFiled) set_code-IsOrderly

  or_internal-InOrder : (o : Outcome (Unit {0})) → Keeps InOrder (or_internal o)
  or_internal-InOrder (ok u) s h = h
  or_internal-InOrder (err e) s h = h
  or_internal-InOrder panic s h = h

  abbrev limit : ℕ → String → Option LinuxResources → LinuxContainer → Step (Unit {0})
  limit depth cid none c = pure tt
  limit depth cid (some r) c = do
    o ← attempt (on_container cid c (set_limits depth r))
    or_internal o

  limit-InOrder :
      (depth : ℕ) (cid : String) (res : Option LinuxResources) (c : LinuxContainer)
      → IsFiled (cid, c)
      → Keeps InOrder (limit depth cid res c)
  limit-InOrder depth cid none c own s h = h
  limit-InOrder depth cid (some r) c own s h =
      let set : Step (Unit {0}) = on_container cid c (set_limits depth r) in
      bind-Keeps InOrder (attempt set) or_internal
        (attempt-Keeps InOrder set
          (on_container-InOrder cid c (set_limits depth r) (set_limits-Filed cid depth r) own))
        or_internal-InOrder s h

  pub update_container-InOrder :
      (depth : ℕ) (cid : String) (res : Option LinuxResources)
      → Keeps InOrder (update_container depth cid res)
  unfolding update_container get_container
  update_container-InOrder depth cid none =
      unwrapped-InOrder cid (limit depth cid none) (limit-InOrder depth cid none)
  update_container-InOrder depth cid (some r) =
      unwrapped-InOrder cid (limit depth cid (some r)) (limit-InOrder depth cid (some r))
