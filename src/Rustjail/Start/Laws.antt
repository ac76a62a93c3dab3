-- ===== src/Rustjail/Start/Laws.antt =====
-- What a start that succeeds leaves of a container (`start` and `run` of rustjail/src/container.rs).
use kata_rust_agent.Base.{
  ℕ, String, Bool, true, false, Option, none, some, List, [], ◌∷◌, ℤ, negsuc, eq_ℤ, eq_ℤ_iff,
  if◌then◌else◌, ◌≡◌, ◌≢◌, refl, sym, ap, ◌∙◌, arith, Bool-cases, inl, inr,
}
use mathlib.Core.Path.{subst}
use kata_rust_agent.Base.Exec.{
  Exec, Outcome, ok, error_code, pure, raise, unwrap, or_raise, attempt, Error, chain_err, modify,
  for_each, ◌>>=◌, ◌>>◌,
}
use kata_rust_agent.Base.Exec.Laws.{bind_ok, then_ok, unwrap_state, or_raise_state, value}
use kata_rust_agent.Oci.{Linux, OciState, Spec}
use kata_rust_agent.Os.{Os}
use kata_rust_agent.Os.Flags.{CloneFlag}
use kata_rust_agent.Rustjail.Container.{LinuxContainer, Manager}
use kata_rust_agent.Rustjail.Environment.{do_exec}
use kata_rust_agent.Rustjail.Join.{Outside, optional, send_to, join_namespaces}
use kata_rust_agent.Rustjail.Lifecycle.{Ctr, sys, oci_state}
use kata_rust_agent.Rustjail.Namespaces.{NamespacePlan, plan_namespaces}
use kata_rust_agent.Rustjail.Process.{Process, Processes, get_pid, put_pid}
use kata_rust_agent.Rustjail.Start.{
  announce, close_some, settle, wait_fifo, first_arg, start_child, one_file, receive_terminal,
  with_terminal, with_exit_pipe, close_joined, prepare_process, created, with_process, start_parent,
  continue, make_fifo, start,
}

get_pid-put_pid : (pid : ℤ) (p : Process) (m : Processes) → get_pid pid (put_pid pid p m) ≡ some p
unfolding get_pid put_pid
get_pid-put_pid pid p [] = rw ((eq_ℤ_iff pid pid).1 refl) refl
get_pid-put_pid pid p ((q, r) ∷ m) = elim (Bool-cases (eq_ℤ q pid)) [
  | inl here ↦ rw here (rw ((eq_ℤ_iff pid pid).1 refl) refl)
  | inr differ ↦ rw differ (rw differ (get_pid-put_pid pid p m))
]

-- a process as the agent keeps it: with its number and the pipe that tells when it has ended
abbrev pub IsKept : Process → ℤ → Process → Type 0
IsKept p child q =
    (q.pid ≡ child)
    × (q.exec_id ≡ p.exec_id)
    × (q.init ≡ p.init)
    × ((r : ℕ) × (q.exit_pipe_r ≡ some r))
    × ((w : ℕ) × (q.exit_pipe_w ≡ some w))

-- What a start makes of a container: it is created, and has the process under its number, which
-- is the container's own if it is the first.
abbrev pub IsStarted : Process → LinuxContainer → LinuxContainer → Type 0
IsStarted p before c =
    (c.id ≡ before.id)
    × (c.config ≡ before.config)
    × (c.status ≡ some "created")
    × (child : ℤ) × (q : Process) × (get_pid child c.processes ≡ some q)
    × IsKept p child q
    × (p.init ≡ true → c.init_process_pid ≡ child)

module _ ⦃os : Os⦄ where
  abbrev piped : Process → ℤ → ℕ → ℕ → Process
  piped p child r e = record p { pid = child; exit_pipe_w = some e; exit_pipe_r = some r }

  receive_terminal-same :
      (p : Process) (console : ℕ) (q : Process) (w w' : os.World)
      → receive_terminal p console w ≡ (ok q, w')
      → (master : ℕ) × (record p { term_master = some master } ≡ q)
  unfolding receive_terminal
  receive_terminal-same p console q w w' h =
      let keep : ℕ → Exec os.World Process =
        λ master. pure (record p { term_master = some master }) in
      let close_both : ℕ → Exec os.World Process = λ master.
        close_some p.parent_console_socket >> (close_some p.console_socket >> keep master) in
      let (r, t, _, h1) =
        bind_ok (attempt (os.recvmsg console)) (λ r. one_file r >>= close_both) w q w' h in
      let (master, t1, _, h2) = bind_ok (one_file r) close_both t q w' h1 in
      let (t2, h3) =
        then_ok (close_some p.parent_console_socket) (close_some p.console_socket >> keep master) t1
          q w' h2 in
      let (t3, h4) = then_ok (close_some p.console_socket) (keep master) t2 q w' h3 in
      (master, value (record p { term_master = some master }) q t3 w' h4)

  with_console-IsKept :
      (console : Option ℕ) (p : Process) (child : ℤ) (r e : ℕ) (q : Process) (w w' : os.World)
      → with_terminal (piped p child r e) console w ≡ (ok q, w')
      → IsKept p child q
  with_console-IsKept none p child r e q w w' h =
      subst (IsKept p child) (value (piped p child r e) q w w' h)
        (refl, refl, refl, (r, refl), (e, refl))
  with_console-IsKept (some c) p child r e q w w' h =
      let (master, same) = receive_terminal-same (piped p child r e) c q w w' h in
      subst (IsKept p child) same (refl, refl, refl, (r, refl), (e, refl))

  with_exit_pipe-IsKept :
      (p : Process) (child : ℤ) (r e : ℕ) (q : Process) (w w' : os.World)
      → with_exit_pipe p child (r, e) w ≡ (ok q, w')
      → IsKept p child q
  unfolding with_exit_pipe
  with_exit_pipe-IsKept p child r e q w w' h =
      with_console-IsKept p.parent_console_socket p child r e q w w' h

  raise_end :
      {S A : Type 0} (m : Exec S A) (s s' : S) (u : Unit {0})
      → (m >> raise (error_code "fail to create container")) s ≢ (ok u, s')
  raise_end m s s' u h =
      let (t, last) = then_ok m (raise (error_code "fail to create container")) s u s' h in
      absurd (ground (arith, ap (λ (x : Outcome (Unit {0}) × _). x.0) last))

  -- In the container's process `start` never comes back with success.
  start_child-ne-ok :
      (ext : Outside) (spec : Spec) (plan : NamespacePlan) (p : Process) (cfd : ℕ)
      (fifofd : Option ℕ) (w w' : os.World) (u : Unit {0})
      → start_child ext spec plan p cfd fifofd w ≢ (ok u, w')
  unfolding start_child
  start_child-ne-ok ext spec plan p cfd fifofd w w' u h =
      let execute : String → Exec os.World (Unit {0}) = λ path.
        do_exec path p.oci.args p.oci.env >> raise (error_code "fail to create container") in
      let named : Exec os.World (Unit {0}) = first_arg p.oci.args >>= execute in
      let (t, h1) =
        then_ok (announce p.init (settle spec plan p) (send_to ext cfd))
          (optional p.init (wait_fifo fifofd) >> named) w u w' h in
      let (t1, h2) = then_ok (optional p.init (wait_fifo fifofd)) named t u w' h1 in
      let (path, t2, _, h3) = bind_ok (first_arg p.oci.args) execute t1 u w' h2 in
      raise_end (do_exec path p.oci.args p.oci.env) t2 w' u h3

  pub prepare_process-IsKept :
      (p : Process) (child : ℤ) (to_join : List (CloneFlag × ℕ)) (q : Process) (w w' : os.World)
      → prepare_process p child to_join w ≡ (ok q, w')
      → IsKept p child q
  unfolding prepare_process
  prepare_process-IsKept p child to_join q w w' h =
      let piped : Exec os.World Process =
        chain_err "failed to create pipe" os.pipe >>= with_exit_pipe p child in
      let after_out : Exec os.World Process = for_each to_join close_joined >> piped in
      let after_err : Exec os.World Process = close_some p.stdout >> after_out in
      let (t, h1) = then_ok (close_some p.stdin) (close_some p.stderr >> after_err) w q w' h in
      let (t1, h2) = then_ok (close_some p.stderr) after_err t q w' h1 in
      let (t2, h3) = then_ok (close_some p.stdout) after_out t1 q w' h2 in
      let (t3, h4) = then_ok (for_each to_join close_joined) piped t2 q w' h3 in
      let ((r, e), t4, _, h5) =
        bind_ok (chain_err "failed to create pipe" os.pipe) (with_exit_pipe p child) t3 q w' h4 in
      with_exit_pipe-IsKept p child r e q t4 w' h5

  pub sys_ctr :
      {A : Type 0} (m : Exec os.World A) (s t : Ctr os.World) (a : A)
      → sys m s ≡ (ok a, t)
      → t.ctr ≡ s.ctr
  unfolding sys
  sys_ctr {A = A} m s t a e = ap (λ (x : Outcome A × Ctr os.World). x.1.ctr) (sym e)

  optional_ctr :
      (b : Bool) (m : Exec os.World (Unit {0})) (s t : Ctr os.World)
      → optional b (sys m) s ≡ (ok tt, t)
      → t.ctr ≡ s.ctr
  optional_ctr true m s t e = sys_ctr m s t tt e
  optional_ctr false m s t e = ap (λ (x : Outcome (Unit {0}) × Ctr os.World). x.1.ctr) (sym e)

  sys-start_child :
      (ext : Outside) (spec : Spec) (plan : NamespacePlan) (p : Process) (cfd : ℕ)
      (fifofd : Option ℕ) (s s' : Ctr os.World) (u : Unit {0})
      → sys (start_child ext spec plan p cfd fifofd) s ≢ (ok u, s')
  unfolding sys
  sys-start_child ext spec plan p cfd fifofd s s' u h =
      let x = start_child ext spec plan p cfd fifofd s.world in
      start_child-ne-ok ext spec plan p cfd fifofd s.world x.1 u
        (λ i. (ap (λ (y : Outcome (Unit {0}) × Ctr os.World). y.0) h i, x.1))

  start_parent-IsStarted :
      (p : Process) (child : ℤ) (to_join : List (CloneFlag × ℕ)) (fifofd : Option ℕ)
      (s s' : Ctr os.World) (u : Unit {0})
      → start_parent p child to_join fifofd s ≡ (ok u, s')
      → IsStarted p s.ctr s'.ctr
  unfolding start_parent sys
  start_parent-IsStarted p child to_join fifofd s s' u h =
      let s0 : Ctr os.World = record s { ctr = created p.init child s.ctr } in
      let finish : Process → Exec (Ctr os.World) (Unit {0}) =
        λ q. modify (λ t. record t { ctr = with_process child q t.ctr }) in
      let prepared : Exec (Ctr os.World) (Unit {0}) =
        sys (prepare_process p child to_join) >>= finish in
      let (_, t, closed, h1) =
        bind_ok (optional p.init (sys (close_some fifofd))) (λ _. prepared) s0 u s' h in
      let (q, t1, ready, h2) = bind_ok (sys (prepare_process p child to_join)) finish t u s' h1 in
      let kept : t1.ctr ≡ created p.init child s.ctr =
        sys_ctr (prepare_process p child to_join) t t1 q ready
        ∙ optional_ctr p.init (close_some fifofd) s0 t closed in
      let whole : s'.ctr ≡ with_process child q (created p.init child s.ctr) =
        ap (λ (x : Outcome (Unit {0}) × Ctr os.World). x.1.ctr) (sym h2)
        ∙ ap (with_process child q) kept in
      subst (IsStarted p s.ctr) (sym whole) (
        refl,
        refl,
        refl,
        child,
        q,
        get_pid-put_pid child q s.ctr.processes,
        prepare_process-IsKept p child to_join q t.world (prepare_process p child to_join t.world).1
            (λ i. (
              ap (λ (x : Outcome Process × Ctr os.World). x.0) ready i,
              (prepare_process p child to_join t.world).1,
            )),
        λ first. rw first refl,
      )

  continue-IsStarted :
      (ext : Outside) (spec : Spec) (plan : NamespacePlan) (p : Process) (fifofd : Option ℕ)
      (joined : ℤ × ℕ) (s s' : Ctr os.World) (u : Unit {0})
      → continue ext spec plan p fifofd joined s ≡ (ok u, s')
      → IsStarted p s.ctr s'.ctr
  continue-IsStarted ext spec plan p fifofd (child, cfd) s s' u h =
      elim (Bool-cases (eq_ℤ child (negsuc 0))) [
        | inl inside ↦ absurd (sys-start_child ext spec plan p cfd fifofd s s' u (rw inside at h))
        | inr agent ↦ start_parent-IsStarted p child plan.to_join fifofd s s' u (rw agent at h)
      ]

  -- what is left to prove after a stage of `start` that leaves the container as it was
  abbrev Rest :
      {A : Type 0}
      → (A → Exec (Ctr os.World) (Unit {0}))
      → Ctr os.World
      → LinuxContainer
      → Type 0
      → Type 0
  Rest k s' c G = (a : _) (t : Ctr os.World) → t.ctr ≡ c → k a t ≡ (ok tt, s') → G

  sys_then :
      {A G : Type 0} (m : Exec os.World A) (k : A → Exec (Ctr os.World) (Unit {0}))
      (s s' : Ctr os.World) (c : LinuxContainer)
      → s.ctr ≡ c
      → (sys m >>= k) s ≡ (ok tt, s')
      → Rest k s' c G
      → G
  sys_then m k s s' c same h rest =
      let (a, t, e, h1) = bind_ok (sys m) k s tt s' h in rest a t (sys_ctr m s t a e ∙ same) h1

  raise_then :
      {A G : Type 0} (o : Option A) (e : Error) (k : A → Exec (Ctr os.World) (Unit {0}))
      (s s' : Ctr os.World) (c : LinuxContainer)
      → s.ctr ≡ c
      → (or_raise o e >>= k) s ≡ (ok tt, s')
      → Rest k s' c G
      → G
  raise_then o e k s s' c same h rest =
      let (a, t, found, h1) = bind_ok (or_raise o e) k s tt s' h in
      rest a t (ap (λ (u : Ctr os.World). u.ctr) (or_raise_state o e a s t found) ∙ same) h1

  unwrap_next :
      {A G : Type 0} (o : Option A) (k : A → Exec (Ctr os.World) (Unit {0})) (s s' : Ctr os.World)
      (c : LinuxContainer)
      → s.ctr ≡ c
      → (unwrap o >>= k) s ≡ (ok tt, s')
      → Rest k s' c G
      → G
  unwrap_next o k s s' c same h rest =
      let (a, t, found, h1) = bind_ok (unwrap o) k s tt s' h in
      rest a t (ap (λ (u : Ctr os.World). u.ctr) (unwrap_state o a s t found) ∙ same) h1

  -- A start that succeeds has succeeded in the agent, and leaves the container created, with the process
  -- under its number and with the pipe that tells when it has ended; the first process is the
  -- container's own.
  pub start-IsStarted :
      (ext : Outside) (p : Process) (s s' : Ctr os.World)
      → start ext p s ≡ (ok tt, s')
      → IsStarted p s.ctr s'.ctr
  unfolding start
  start-IsStarted ext p s s' h =
      let c = s.ctr in
      let join : NamespacePlan
          → Spec
          → Option ℕ
          → OciState
          → Manager
          → Exec (Ctr os.World) (Unit {0}) =
        λ plan spec fifofd st m.
          sys (join_namespaces ext spec plan p.init c.config.no_pivot_root m st)
          >>= continue ext spec plan p fifofd in
      let manage : NamespacePlan → Spec → Option ℕ → OciState → Exec (Ctr os.World) (Unit {0}) =
        λ plan spec fifofd st. unwrap c.cgroup_manager >>= join plan spec fifofd st in
      let state : Spec → Option ℕ → NamespacePlan → Exec (Ctr os.World) (Unit {0}) =
        λ spec fifofd plan. sys (oci_state c) >>= manage plan spec fifofd in
      let plan_all : Spec → Option ℕ → Linux → Exec (Ctr os.World) (Unit {0}) = λ spec fifofd linux.
        sys (plan_namespaces ext.keys linux p.init c.init_process_pid) >>= state spec fifofd in
      let linux_of : Option ℕ → Spec → Exec (Ctr os.World) (Unit {0}) = λ fifofd spec.
        or_raise spec.linux (error_code "no linux config") >>= plan_all spec fifofd in
      let spec_of : Option ℕ → Exec (Ctr os.World) (Unit {0}) =
        λ fifofd. or_raise c.config.spec (error_code "no spec") >>= linux_of fifofd in
      sys_then (if p.init then make_fifo c.root else pure none) spec_of s s' c refl h
        (λ fifofd t same h1.
          raise_then c.config.spec (error_code "no spec") (linux_of fifofd) t s' c same h1
            (λ spec t1 same1 h2.
              raise_then spec.linux (error_code "no linux config") (plan_all spec fifofd) t1 s' c
                same1 h2
                (λ linux t2 same2 h3.
                  sys_then (plan_namespaces ext.keys linux p.init c.init_process_pid)
                    (state spec fifofd) t2 s' c same2 h3
                    (λ plan t3 same3 h4.
                      sys_then (oci_state c) (manage plan spec fifofd) t3 s' c same3 h4
                        (λ st t4 same4 h5.
                          unwrap_next c.cgroup_manager (join plan spec fifofd st) t4 s' c same4 h5
                            (λ m t5 same5 h6.
                              sys_then
                                (join_namespaces ext spec plan p.init c.config.no_pivot_root m st)
                                (continue ext spec plan p fifofd) t5 s' c same5 h6
                                (λ joined t6 same6 h7.
                                  subst (λ b. IsStarted p b s'.ctr) same6
                                    (continue-IsStarted ext spec plan p fifofd joined t6 s' tt
                                      h7))))))))
