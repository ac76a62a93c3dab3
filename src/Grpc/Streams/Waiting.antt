-- ===== src/Grpc/Streams/Waiting.antt =====
-- What `do_wait_process` answers and leaves.
use kata_rust_agent.Base.{
  ℕ, ℤ, eq_ℤ, eq_ℤ_iff, String, false, Option, none, some, [], ◌∷◌, ◌≡◌, ◌≢◌, refl, sym, ap, ◌∙◌,
  arith, inl, inr, Bool-cases, eq_refl, if◌then◌else◌,
}
use kata_rust_agent.Base.Dict.{get, get-put}
use kata_rust_agent.Base.Exec.{ok, panic, pure, modify, ◌>>◌}
use kata_rust_agent.Base.Exec.Laws.{bind_step}
use kata_rust_agent.Os.{Os}
use kata_rust_agent.Rustjail.Process.{Process, Processes, get_pid, remove_pid}
use kata_rust_agent.Rustjail.Container.{LinuxContainer}
use kata_rust_agent.Sandbox.Agent.{Agent}
use kata_rust_agent.Sandbox.Quiet.{Quiet, then-Quiet, attempt-Quiet}
use kata_rust_agent.Grpc.Streams.{
  Found, find, find_process, close_quietly, close_all, await_exit, drop_process, reap_process, reap,
  wait_found, do_wait_process,
}

-- a removed pid is not found again, and every other one is
get_pid-remove_pid :
    (p q : ℤ) (m : Processes)
    → get_pid q (remove_pid p m) ≡ (if eq_ℤ p q then none else get_pid q m)
unfolding get_pid remove_pid
get_pid-remove_pid p q [] = ground arith
get_pid-remove_pid p q ((r, x) ∷ m) = elim (Bool-cases (eq_ℤ r p)) [
  | inl e ↦
      rw (e, (eq_ℤ_iff r p).0 e)
        (rw (get_pid-remove_pid p q m)
          (elim (Bool-cases (eq_ℤ p q)) [ inl f ↦ rw f refl | inr f ↦ rw f refl ]))
  | inr e ↦ rw e (elim (Bool-cases (eq_ℤ r q)) [
    | inl f ↦ elim (Bool-cases (eq_ℤ p q)) [
      | inl g ↦
          absurd
            (ground (arith, e, (eq_ℤ_iff r p).1 ((eq_ℤ_iff r q).0 f ∙ sym ((eq_ℤ_iff p q).0 g))))
      | inr g ↦ rw (f, g) refl
    ]
    | inr f ↦ rw f (get_pid-remove_pid p q m)
  ])
]

module _ ⦃os : Os⦄ (close_calm : (fd : ℕ) (w : os.World) → (os.close fd w).0 ≢ panic) where
  pub close_quietly-Quiet : (o : Option ℕ) → Quiet (close_quietly o)
  unfolding close_quietly
  close_quietly-Quiet none a = (a.world, refl)
  close_quietly-Quiet (some fd) a = attempt-Quiet (os.close fd) (close_calm fd) a

  close_all-Quiet : (p : Process) → Quiet (close_all p)
  unfolding close_all
  close_all-Quiet p = then-Quiet _ _ (close_quietly-Quiet p.parent_stdin) (
      then-Quiet _ _ (close_quietly-Quiet p.parent_stdout) (
        then-Quiet _ _ (close_quietly-Quiet p.parent_stderr)
          (then-Quiet _ _ (close_quietly-Quiet p.term_master) (close_quietly-Quiet p.exit_pipe_r))))

  await_exit-Quiet :
      ((fd n : ℕ) (w : os.World) → (os.read_fd fd n w).0 ≢ panic)
      → (o : Option ℕ) → Quiet (await_exit o)
  unfolding await_exit
  await_exit-Quiet read_calm none a = (a.world, refl)
  await_exit-Quiet read_calm (some fd) a = attempt-Quiet (os.read_fd fd 2) (read_calm fd 2) a

  pub reap_lem :
      (cid : String) (pid : ℤ) (ctr : LinuxContainer) (p : Process) (a : Agent os.World)
      → get cid a.sandbox.containers ≡ some ctr
      → get_pid pid ctr.processes ≡ some p
      → (w : os.World) × (reap cid pid a
          ≡ (ok p.exit_code, drop_process cid pid ctr (record a { world = w })))
  unfolding reap reap_process
  reap_lem cid pid ctr p a there alive =
      let (w, quiet) = close_all-Quiet p a in
      (
        w,
        rw (there, alive)
            (bind_step (close_all p) (λ _. modify (drop_process cid pid ctr) >> pure p.exit_code) a
              (record a { world = w }) tt quiet),
      )

  -- a wait for a process that is found looks it up again after what the other threads do
  pub do_wait_process-reap :
      (reaped : Agent os.World → Agent os.World) (cid eid : String) (a : Agent os.World) (f : Found)
      → ((fd n : ℕ) (w : os.World) → (os.read_fd fd n w).0 ≢ panic)
      → find_process cid eid false a.sandbox ≡ ok f
      → (w : os.World) × (do_wait_process reaped cid eid a
          ≡ reap cid f.process.pid (reaped (record a { world = w })))
  do_wait_process-reap reaped cid eid a f read_calm found =
      let (w, ended) = await_exit-Quiet read_calm f.process.exit_pipe_r a in
      (
        w,
        unfold do_wait_process in
            bind_step (find cid eid false) (wait_found reaped cid) a a f
              (unfold find in ap (λ r. (r, a)) found)
            ∙ (unfold wait_found in
                bind_step (await_exit f.process.exit_pipe_r)
                  (λ _. modify reaped >> reap cid f.process.pid) a (record a { world = w }) tt
                  ended),
      )

  pub do_wait_process_lem :
      (reaped : Agent os.World → Agent os.World) (cid eid : String) (a : Agent os.World) (f : Found)
      (ctr : LinuxContainer) (p : Process)
      → ((fd n : ℕ) (w : os.World) → (os.read_fd fd n w).0 ≢ panic)
      → find_process cid eid false a.sandbox ≡ ok f
      → ((w : os.World) → get cid (reaped (record a { world = w })).sandbox.containers ≡ some ctr)
      → get_pid f.process.pid ctr.processes ≡ some p
      → let (r, a') = do_wait_process reaped cid eid a in
        (r ≡ ok p.exit_code)
        × (get cid a'.sandbox.containers
            ≡ some (record ctr { processes = remove_pid f.process.pid ctr.processes }))
        × (get_pid f.process.pid (remove_pid f.process.pid ctr.processes) ≡ none)
  do_wait_process_lem reaped cid eid a f ctr p read_calm found there alive =
      let (w, again) = do_wait_process-reap reaped cid eid a f read_calm found in
      let b = reaped (record a { world = w }) in
      let (v, reaping) = reap_lem cid f.process.pid ctr p b (there w) alive in
      let whole : do_wait_process reaped cid eid a
          ≡ (ok p.exit_code, drop_process cid f.process.pid ctr (record b { world = v })) =
        again ∙ reaping in
      rw whole (
        refl,
        rw
            (
              get-put cid cid (record ctr { processes = remove_pid f.process.pid ctr.processes })
                  b.sandbox.containers,
              eq_refl cid,
            )
            refl,
        rw
            (
              get_pid-remove_pid f.process.pid f.process.pid ctr.processes,
              (eq_ℤ_iff f.process.pid f.process.pid).1 refl,
            )
            refl,
      )
