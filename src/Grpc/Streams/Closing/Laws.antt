-- ===== src/Grpc/Streams/Closing/Laws.antt =====
-- What is left to write to once `close_stdin` has closed the input of a process (src/grpc.rs).
use kata_rust_agent.Base.{
  ℕ, String, false, true, Option, none, some, List, [], ◌∷◌, ℤ, eq_ℤ, eq_ℤ_iff, str_eq, ◌≡◌, ◌≢◌,
  refl, ap, ◌∙◌, arith, Bool-cases, Option-cases, inl, inr, eq_refl, if◌then◌else◌,
}
use mathlib.Core.Path.{subst}
use kata_rust_agent.Base.Dict.{get, get-put}
use kata_rust_agent.Base.Exec.{Exec, Outcome, ok, panic, modify, ◌>>◌}
use kata_rust_agent.Base.Exec.Laws.{bind_step}
use kata_rust_agent.Os.{Os}
use kata_rust_agent.Rustjail.Process.{Process, Processes, update_pid}
use kata_rust_agent.Rustjail.Container.{LinuxContainer, get_process}
use kata_rust_agent.Sandbox.{Sandbox}
use kata_rust_agent.Sandbox.Agent.{Agent}
use kata_rust_agent.Grpc.Streams.{
  Found, find, find_exec, find_process, store, close_quietly, write_found, do_write_stream,
}
use kata_rust_agent.Grpc.Streams.Closing.{without_input, close_input, close_stdin}
use kata_rust_agent.Grpc.Streams.Waiting.{close_quietly-Quiet}

get_process-named :
    (eid : String) (pid : ℤ) (p : Process) (m : Processes)
    → get_process eid m ≡ some (pid, p)
    → str_eq eid p.exec_id ≡ true
unfolding get_process
get_process-named eid pid p [] h = absurd (ground (arith, h))
get_process-named eid pid p ((q, r) ∷ m) h = elim (Bool-cases (str_eq eid r.exec_id)) [
  | inl named ↦
      let found : Path (Option (ℤ × Process)) (some (q, r)) (some (pid, p)) = rw named at h in
      let whole : r ≡ p = ground (arith, found) in
      subst (λ (y : Process). str_eq eid y.exec_id ≡ true) whole named
  | inr differ ↦ get_process-named eid pid p m (rw differ at h)
]

-- a process that is found by its name is found as it is changed
get_process-update_pid :
    (eid : String) (pid : ℤ) (p x : Process) (m : Processes)
    → get_process eid m ≡ some (pid, p)
    → x.exec_id ≡ p.exec_id
    → get_process eid (update_pid pid x m) ≡ some (pid, x)
unfolding get_process update_pid
get_process-update_pid eid pid p x [] h same = absurd (ground (arith, h))
get_process-update_pid eid pid p x ((q, r) ∷ m) h same = elim (Bool-cases (eq_ℤ q pid)) [
  | inl here ↦
      let named : str_eq eid x.exec_id ≡ true =
        ap (str_eq eid) same ∙ get_process-named eid pid p ((q, r) ∷ m) h in
      rw here (rw named (ap (λ k. some (k, x)) ((eq_ℤ_iff q pid).0 here)))
  | inr other ↦ rw other (elim (Bool-cases (str_eq eid r.exec_id)) [
    | inl named ↦
        let found : Path (Option (ℤ × Process)) (some (q, r)) (some (pid, p)) = rw named at h in
        absurd (ground (arith, found, other, eq_ℤ_iff q pid))
    | inr differ ↦ rw differ (get_process-update_pid eid pid p x m (rw differ at h) same)
  ])
]

-- what a request finds
pub find_process-found :
    (cid eid : String) (s : Sandbox) (f : Found)
    → find_process cid eid false s ≡ ok f
    → (get cid s.containers ≡ some f.ctr)
      × (get_process eid f.ctr.processes ≡ some (f.pid, f.process))
unfolding find_process
find_process-found cid eid s f h = elim (Option-cases (get cid s.containers)) [
  | inl gone ↦ absurd (let h1 = rw (gone, find_process) at h in ground (arith, h1))
  | inr (c, there) ↦
      let h0 : find_exec eid c ≡ ok f = rw (there, find_process) at h in
      elim (Option-cases (get_process eid c.processes)) [
        | inl gone ↦ absurd (let h1 = rw (find_exec, gone) at h0 in ground (arith, h1))
        | inr ((pid, p), alive) ↦
            let h1 : Path (Outcome Found) (ok (record { ctr = c; pid = pid; process = p })) (ok f) =
              rw (find_exec, alive) at h0 in
            let whole : Path Found (record { ctr = c; pid = pid; process = p }) f =
              ground (arith, h1) in
            (
              there ∙ ap (λ (g : Found). some g.ctr) whole,
              subst (λ (g : Found). get_process eid g.ctr.processes ≡ some (g.pid, g.process)) whole
                  alive,
            )
      ]
]

find_process-finds :
    (cid eid : String) (s : Sandbox) (c : LinuxContainer) (pid : ℤ) (p : Process)
    → get cid s.containers ≡ some c
    → get_process eid c.processes ≡ some (pid, p)
    → find_process cid eid false s ≡ ok (record { ctr = c; pid = pid; process = p })
unfolding find_process
find_process-finds cid eid s c pid p there alive =
    let looked : find_process cid eid false s ≡ find_exec eid c = rw (there, find_process) refl in
    looked ∙ rw (alive, find_exec) refl

-- the sandbox after the process has been changed
store-found :
    {W : Type 0} (cid eid : String) (f : Found) (x : Process) (a : Agent W)
    → get_process eid f.ctr.processes ≡ some (f.pid, f.process)
    → x.exec_id ≡ f.process.exec_id
    → (g : Found) × (find_process cid eid false (store cid f x a).sandbox ≡ ok g) × (g.process ≡ x)
store-found cid eid f x a alive same =
    let c : LinuxContainer = record f.ctr { processes = update_pid f.pid x f.ctr.processes } in
    (
      record { ctr = c; pid = f.pid; process = x },
      find_process-finds cid eid (store cid f x a).sandbox c f.pid x
          (get-put cid cid c a.sandbox.containers
            ∙ ap (λ b. if b then some c else get cid a.sandbox.containers) (eq_refl cid))
          (get_process-update_pid eid f.pid f.process x f.ctr.processes alive same),
      refl,
    )

module _ ⦃os : Os⦄ (close_calm : (fd : ℕ) (w : os.World) → (os.close fd w).0 ≢ panic) where
  close_input-step :
      (cid : String) (f : Found) (a : Agent os.World)
      → (w : os.World) × (close_input cid f a
          ≡ (ok tt, store cid f (without_input f.process) (record a { world = w })))
  unfolding close_input
  close_input-step cid f a =
      let first : Exec (Agent os.World) (Unit {0}) = close_quietly f.process.term_master in
      let second : Exec (Agent os.World) (Unit {0}) = close_quietly f.process.parent_stdin in
      let last : Exec (Agent os.World) (Unit {0}) =
        modify (store cid f (without_input f.process)) in
      let (w, e) = close_quietly-Quiet close_calm f.process.term_master a in
      let (v, e') =
        close_quietly-Quiet close_calm f.process.parent_stdin (record a { world = w }) in
      (
        v,
        bind_step first (λ _. second >> last) a (record a { world = w }) tt e
            ∙ bind_step second (λ _. last) (record a { world = w }) (record a { world = v }) tt e',
      )

  -- Where no close panics, a request that closes the input of a process that is there succeeds, and any
  -- write to that process afterwards is a panic of the agent.
  pub close_stdin-do_write_stream :
      (cid eid : String) (bytes : List ℕ) (a : Agent os.World) (f : Found)
      → find_process cid eid false a.sandbox ≡ ok f
      → let (r, a') = close_stdin cid eid a in
        (r ≡ ok tt) × ((do_write_stream cid eid bytes a').0 ≡ panic)
  close_stdin-do_write_stream cid eid bytes a f found =
      let (_, alive) = find_process-found cid eid a.sandbox f found in
      let (w, closed) = close_input-step cid f a in
      let x = without_input f.process in
      let b = store cid f x (record a { world = w }) in
      let (g, again, changed) = store-found cid eid f x (record a { world = w }) alive refl in
      let whole : close_stdin cid eid a ≡ (ok tt, b) = unfold close_stdin in rw found closed in
      rw whole (
        refl,
        writing b g again (ap (λ (p : Process). p.term_master) changed)
            (ap (λ (p : Process). p.parent_stdin) changed),
      )
    where
      writing :
          (b : Agent os.World) (g : Found)
          → find_process cid eid false b.sandbox ≡ ok g
          → g.process.term_master ≡ none
          → g.process.parent_stdin ≡ none
          → (do_write_stream cid eid bytes b).0 ≡ panic
      writing b g again no_terminal no_stdin =
          unfold do_write_stream in
          ap (λ (x : Outcome ℕ × Agent os.World). x.0)
            (bind_step (find cid eid false) (write_found bytes) b b g
              (unfold find in ap (λ r. (r, b)) again))
          ∙ (unfold write_found in rw (no_terminal, no_stdin) refl)
