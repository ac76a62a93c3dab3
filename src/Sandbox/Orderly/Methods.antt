-- ===== src/Sandbox/Orderly/Methods.antt =====
-- The methods of a container keep it filed: its id, and its processes under their numbers.
use Prim.Native.String.{◌++◌}
use kata_rust_agent.Base.{
  ℕ, String, Bool, true, false, Option, none, some, List, [], ◌∷◌, ℤ, negsuc, eq_ℤ, if◌then◌else◌,
  ◌≡◌, ap, Bool-cases, inl, inr,
}
use kata_rust_agent.Base.Exec.{
  Exec, Outcome, ok, error_code, pure, unwrap, or_raise, modify, for_each, ◌>>=◌, ◌>>◌,
}
use kata_rust_agent.Base.Exec.Keeps.{
  Keeps, bind-Keeps, bind-Keeps_known, then-Keeps, unwrap-Keeps, or_raise-Keeps,
}
use kata_rust_agent.Oci.{Linux, OciState, Spec}
use kata_rust_agent.Oci.Resources.{LinuxResources}
use kata_rust_agent.Os.{Os}
use kata_rust_agent.Os.Flags.{CloneFlag}
use kata_rust_agent.Rustjail.Cgroups.Manager.{set as set_groups}
use kata_rust_agent.Rustjail.Container.{Manager, pids}
use kata_rust_agent.Rustjail.Join.{Outside, optional, join_namespaces}
use kata_rust_agent.Rustjail.Lifecycle.{
  Ctr, sys, exec_fifo_filename, sigkill, poststop_of, execute_hook, oci_state, exec, destroy,
}
use kata_rust_agent.Rustjail.Limits.{with_resources, set_limits}
use kata_rust_agent.Rustjail.Namespaces.{NamespacePlan, plan_namespaces}
use kata_rust_agent.Rustjail.Process.{Process}
use kata_rust_agent.Rustjail.Start.{
  close_some, start_child, prepare_process, created, with_process, start_parent, continue,
  make_fifo, start, run,
}
use kata_rust_agent.Rustjail.Start.Laws.{prepare_process-IsKept}
use kata_rust_agent.Sandbox.Orderly.{IsFiled, All-put_pid}

abbrev pub Filed : {W : Type 0} → String → Ctr W → Type 0
Filed id s = IsFiled (id, s.ctr)

module _ ⦃os : Os⦄ (id : String) where
  sys-Filed : {A : Type 0} (m : Exec os.World A) → Keeps (Filed id) (sys m)
  unfolding sys
  sys-Filed m s h = h

  optional-Filed :
      (b : Bool) (m : Exec (Ctr os.World) (Unit {0}))
      → Keeps (Filed id) m
      → Keeps (Filed id) (optional b m)
  optional-Filed true m hm s h = hm s h
  optional-Filed false m hm s h = h

  pub exec-Filed : Keeps (Filed id) exec
  unfolding exec
  exec-Filed s h =
      let mark : Exec (Ctr os.World) (Unit {0}) = modify (λ t. record t {
        ctr = record t.ctr { init_process_start_time = os.now t.world; status = some "running" };
      }) in
      bind-Keeps (Filed id) (sys (os.open_fd (s.ctr.root ++ "/" ++ exec_fifo_filename)))
        (λ fd. sys (os.write_fd fd (0 ∷ [])) >> (mark >> sys (os.close fd)))
        (sys-Filed (os.open_fd (s.ctr.root ++ "/" ++ exec_fifo_filename)))
        (λ fd.
          then-Keeps (Filed id) (sys (os.write_fd fd (0 ∷ []))) (mark >> sys (os.close fd))
            (sys-Filed (os.write_fd fd (0 ∷ [])))
            (then-Keeps (Filed id) mark (sys (os.close fd)) (λ t k. k) (sys-Filed (os.close fd))))
        s h

  pub destroy-Filed : Keeps (Filed id) destroy
  unfolding destroy
  destroy-Filed s h =
      let c = s.ctr in
      let stop : Exec (Ctr os.World) (Unit {0}) =
        modify (λ t. record t { ctr = record t.ctr { status = some "stopped" } }) in
      let kill : Exec os.World (Unit {0}) =
        for_each (pids c.processes) (λ pid. os.kill pid sigkill) in
      let hooks : Spec → OciState → Exec os.World (Unit {0}) =
        λ spec st. for_each (poststop_of spec.hooks) (execute_hook st) in
      let end : Spec → OciState → Exec (Ctr os.World) (Unit {0}) =
        λ spec st. sys kill >> (sys (hooks spec st) >> stop) in
      bind-Keeps (Filed id) (unwrap c.config.spec) (λ spec. sys (oci_state c) >>= end spec)
        (unwrap-Keeps (Filed id) c.config.spec)
        (λ spec.
          bind-Keeps (Filed id) (sys (oci_state c)) (end spec) (sys-Filed (oci_state c)) (λ st.
            then-Keeps (Filed id) (sys kill) (sys (hooks spec st) >> stop) (sys-Filed kill) (
              then-Keeps (Filed id) (sys (hooks spec st)) stop (sys-Filed (hooks spec st))
                (λ t k. k))))
        s h

  abbrev set_manager : ℕ → LinuxResources → Option Manager → Exec (Ctr os.World) (Unit {0})
  set_manager depth r o = elim o [ none ↦ pure tt | some m ↦ sys (set_groups depth m r true) ]

  set_manager-Filed :
      (depth : ℕ) (r : LinuxResources) (o : Option Manager)
      → Keeps (Filed id) (set_manager depth r o)
  set_manager-Filed depth r none t k = k
  set_manager-Filed depth r (some m) t k = sys-Filed (set_groups depth m r true) t k

  pub set_limits-Filed : (depth : ℕ) (r : LinuxResources) → Keeps (Filed id) (set_limits depth r)
  unfolding set_limits
  set_limits-Filed depth r s h =
      let c = s.ctr in
      let put_in : Spec → Linux → Exec (Ctr os.World) (Unit {0}) =
        λ spec linux. modify (λ t. record t { ctr = with_resources t.ctr spec linux r }) in
      let find : Spec → Exec (Ctr os.World) (Unit {0}) =
        λ spec. unwrap spec.linux >>= put_in spec in
      then-Keeps (Filed id) (set_manager depth r c.cgroup_manager) (unwrap c.config.spec >>= find)
        (set_manager-Filed depth r c.cgroup_manager)
        (bind-Keeps (Filed id) (unwrap c.config.spec) find (unwrap-Keeps (Filed id) c.config.spec)
          (λ spec.
            bind-Keeps (Filed id) (unwrap spec.linux) (put_in spec)
              (unwrap-Keeps (Filed id) spec.linux) (λ linux t k. k)))
        s h

  prepared_pid :
      (p : Process) (child : ℤ) (to_join : List (CloneFlag × ℕ)) (t : Ctr os.World) (q : Process)
      (u : Ctr os.World)
      → sys (prepare_process p child to_join) t ≡ (ok q, u)
      → q.pid ≡ child
  unfolding sys
  prepared_pid p child to_join t q u made =
      let x = prepare_process p child to_join t.world in
      (prepare_process-IsKept p child to_join q t.world x.1
        (λ i. (ap (λ (y : Outcome Process × Ctr os.World). y.0) made i, x.1))).0

  start_parent-Filed :
      (p : Process) (child : ℤ) (to_join : List (CloneFlag × ℕ)) (fifofd : Option ℕ)
      → Keeps (Filed id) (start_parent p child to_join fifofd)
  unfolding start_parent
  start_parent-Filed p child to_join fifofd s h =
      let finish : Process → Exec (Ctr os.World) (Unit {0}) =
        λ q. modify (λ t. record t { ctr = with_process child q t.ctr }) in
      let prepared : Exec (Ctr os.World) (Unit {0}) =
        sys (prepare_process p child to_join) >>= finish in
      then-Keeps (Filed id) (optional p.init (sys (close_some fifofd))) prepared
        (optional-Filed p.init (sys (close_some fifofd)) (sys-Filed (close_some fifofd)))
        (bind-Keeps_known (Filed id) (sys (prepare_process p child to_join)) finish
          (sys-Filed (prepare_process p child to_join))
          (λ t q u made (own, all). (
            own,
            All-put_pid child q u.ctr.processes (prepared_pid p child to_join t q u made) all,
          )))
        (record s { ctr = created p.init child s.ctr }) h

  continue-Filed :
      (ext : Outside) (spec : Spec) (plan : NamespacePlan) (p : Process) (fifofd : Option ℕ)
      (joined : ℤ × ℕ)
      → Keeps (Filed id) (continue ext spec plan p fifofd joined)
  continue-Filed ext spec plan p fifofd (child, cfd) s h =
      elim (Bool-cases (eq_ℤ child (negsuc 0))) [
        | inl inside ↦ rw inside (sys-Filed (start_child ext spec plan p cfd fifofd) s h)
        | inr agent ↦ rw agent (start_parent-Filed p child plan.to_join fifofd s h)
      ]

  pub start-Filed : (ext : Outside) (p : Process) → Keeps (Filed id) (start ext p)
  unfolding start
  start-Filed ext p s h =
      let F = Filed id in
      let c = s.ctr in
      let join : NamespacePlan
          → Spec
          → Option ℕ
          → OciState
          → Manager
          → Exec (Ctr os.World) (Unit {0}) =
        λ plan spec fifofd st m.
          sys (join_namespaces ext spec plan p.init c.config.no_pivot_root m st)
          >>= continue ext spec plan p fifofd in
      let manage : NamespacePlan → Spec → Option ℕ → OciState → Exec (Ctr os.World) (Unit {0}) =
        λ plan spec fifofd st. unwrap c.cgroup_manager >>= join plan spec fifofd st in
      let state : Spec → Option ℕ → NamespacePlan → Exec (Ctr os.World) (Unit {0}) =
        λ spec fifofd plan. sys (oci_state c) >>= manage plan spec fifofd in
      let plan_all : Spec → Option ℕ → Linux → Exec (Ctr os.World) (Unit {0}) = λ spec fifofd linux.
        sys (plan_namespaces ext.keys linux p.init c.init_process_pid) >>= state spec fifofd in
      let linux_of : Option ℕ → Spec → Exec (Ctr os.World) (Unit {0}) = λ fifofd spec.
        or_raise spec.linux (error_code "no linux config") >>= plan_all spec fifofd in
      let spec_of : Option ℕ → Exec (Ctr os.World) (Unit {0}) =
        λ fifofd. or_raise c.config.spec (error_code "no spec") >>= linux_of fifofd in
      let fifo : Exec os.World (Option ℕ) = if p.init then make_fifo c.root else pure none in
      bind-Keeps F (sys fifo) spec_of (sys-Filed fifo)
        (λ fifofd.
          bind-Keeps F (or_raise c.config.spec (error_code "no spec")) (linux_of fifofd)
            (or_raise-Keeps F c.config.spec (error_code "no spec"))
            (λ spec.
              bind-Keeps F (or_raise spec.linux (error_code "no linux config"))
                (plan_all spec fifofd) (or_raise-Keeps F spec.linux (error_code "no linux config"))
                (λ linux.
                  let planned = plan_namespaces ext.keys linux p.init c.init_process_pid in
                  bind-Keeps F (sys planned) (state spec fifofd) (sys-Filed planned) (λ plan.
                    bind-Keeps F (sys (oci_state c)) (manage plan spec fifofd)
                      (sys-Filed (oci_state c))
                      (λ st.
                        bind-Keeps F (unwrap c.cgroup_manager) (join plan spec fifofd st)
                          (unwrap-Keeps F c.cgroup_manager)
                          (λ m.
                            let joined =
                              join_namespaces ext spec plan p.init c.config.no_pivot_root m st in
                            bind-Keeps F (sys joined) (continue ext spec plan p fifofd)
                              (sys-Filed joined) (continue-Filed ext spec plan p fifofd)))))))
        s h

  pub run-Filed : (ext : Outside) (p : Process) → Keeps (Filed id) (run ext p)
  unfolding run
  run-Filed ext p =
      let mark : Exec (Ctr os.World) (Unit {0}) =
        modify (λ s. record s { ctr = record s.ctr { status = some "running" } }) in
      then-Keeps (Filed id) (start ext p) (optional p.init (exec >> mark)) (start-Filed ext p) (
        optional-Filed p.init (exec >> mark)
          (then-Keeps (Filed id) exec mark exec-Filed (λ t k. k)))
