-- ===== src/Rustjail/Start.antt =====
-- `start` and `run` of rustjail/src/container.rs, in the agent and in the process that becomes the
-- container's, and `setup_stdio`.
pub mod Laws
pub mod Status
use Prim.Native.String.{◌++◌}
use kata_rust_agent.Base.{
  ℕ, String, Bool, true, false, not, Option, none, some, List, [], ◌∷◌, ◌++◌ as append, ◌==◌, ℤ,
  pos, negsuc, eq_ℤ, ltb, str_eq, if◌then◌else◌,
}
use kata_rust_agent.Base.Print.{show_ℕ}
use kata_rust_agent.Base.Exec.{
  Exec, Outcome, ok, err, panic, Error, error_code, nix, pure, raise, crash, gets, unwrap, or_raise,
  attempt, chain_err, modify, raise_if, for_each, ◌>>=◌, ◌>>◌,
}
use kata_rust_agent.Oci.{Linux, Spec}
use kata_rust_agent.Oci.Process.{OciProcess, User, LinuxCapabilities}
use kata_rust_agent.Os.{Os}
use kata_rust_agent.Os.Flags.{CloneFlag, newns}
use kata_rust_agent.Rustjail.Capabilities.{drop_priviledges}
use kata_rust_agent.Rustjail.Container.{LinuxContainer}
use kata_rust_agent.Rustjail.Environment.{do_exec}
use kata_rust_agent.Rustjail.Identity.{setid}
use kata_rust_agent.Rustjail.Join.{Outside, optional, send_to, join_namespaces}
use kata_rust_agent.Rustjail.Lifecycle.{Ctr, sys, exec_fifo_filename, oci_state, exec}
use kata_rust_agent.Rustjail.Namespaces.{NamespacePlan, plan_namespaces}
use kata_rust_agent.Rustjail.Process.{Process, Processes, put_pid}
use kata_rust_agent.Rustjail.Rootfs.Setup.{finish_rootfs}

-- the last step of the container's process, and its message to the agent
unfoldable pub announce :
    {W : Type 0} → Bool → Exec W (Unit {0}) → (ℤ → Exec W (Unit {0})) → Exec W (Unit {0})
announce init last_step notify = do last_step; optional init (notify (pos 0))

module _ ⦃os : Os⦄ where
  -- the FIFO that the first process waits on, and its file
  unfoldable pub make_fifo : String → Exec os.World (Option ℕ)
  make_fifo root =
      let file = root ++ "/" ++ exec_fifo_filename in
      do
        exists ← gets (os.exists file)
        raise_if exists (error_code "exec fifo exists")
        os.mkfifo file 0o622
        fd ← os.open_path file
        pure (some fd)

  abbrev pub close_some : Option ℕ → Exec os.World (Unit {0})
  close_some o = do fd ← unwrap o; os.close fd

  -- `close` of what is above the standard streams
  abbrev pub close_high : ℕ → Exec os.World (Unit {0})
  close_high fd = optional (ltb 2 fd) (os.close fd)

  -- the terminal of a process: its master goes to the agent
  unfoldable pub setup_terminal : Process → ℕ → Exec os.World (Unit {0})
  setup_terminal p console = do
    (master, slave) ← os.openpty
    r ← attempt (do
      os.sendmsg console (master ∷ [])
      os.close console
      close_some p.parent_console_socket
      os.setsid
      attempt (os.set_terminal slave)
      os.dup2 slave 0
      os.dup2 slave 1
      os.dup2 slave 2
      close_high slave)
    c ← attempt (os.close master)
    elim c [
      | ok _ ↦ elim r [ ok _ ↦ pure tt | err e ↦ raise e | panic ↦ crash ]
      | err e ↦ crash
      | panic ↦ crash
    ]

  unfoldable pub setup_streams : Process → Exec os.World (Unit {0})
  setup_streams p = do
    stdin ← unwrap p.stdin
    os.dup2 stdin 0
    stdout ← unwrap p.stdout
    os.dup2 stdout 1
    stderr ← unwrap p.stderr
    os.dup2 stderr 2
    close_high stdin
    close_high stdout
    close_high stderr

  -- `setup_stdio`
  unfoldable pub setup_stdio : Process → Exec os.World (Unit {0})
  unfolding setup_terminal setup_streams
  setup_stdio p = do
    elim p.console_socket [ some console ↦ setup_terminal p console | none ↦ setup_streams p ]
    close_some p.parent_stdin
    close_some p.parent_stdout
    close_some p.parent_stderr

  -- the ids of the user of the process
  abbrev pub become_user : Option User → Exec os.World (Unit {0})
  become_user none = pure tt
  become_user (some u) = do
    setid u.uid u.gid
    elim u.additional_gids [ [] ↦ pure tt | g ∷ gs ↦ os.setgroups (g ∷ gs) ]

  abbrev pub drop_caps : Option LinuxCapabilities → Exec os.World (Unit {0})
  drop_caps none = pure tt
  drop_caps (some caps) = drop_priviledges caps

  abbrev pub forbid_privileges : Exec os.World (Unit {0})
  forbid_privileges = do
    r ← attempt (os.set_no_new_privileges true)
    elim r [
      | ok _ ↦ pure tt
      | err e ↦ raise (error_code "cannot set no new privileges")
      | panic ↦ crash
    ]

  -- the container's process up to its last message
  unfoldable pub settle : Spec → NamespacePlan → Process → Exec os.World (Unit {0})
  unfolding setup_stdio finish_rootfs setid drop_priviledges
  settle spec plan p = do
    setup_stdio p
    optional (plan.to_new newns) (finish_rootfs spec)
    optional (not (str_eq p.oci.cwd "")) (os.chdir p.oci.cwd)
    become_user p.oci.user
    optional p.oci.no_new_privileges forbid_privileges
    drop_caps p.oci.capabilities

  -- the first process waits until `exec` writes to the FIFO
  abbrev pub wait_fifo : Option ℕ → Exec os.World (Unit {0})
  wait_fifo fifofd = do
    path ← unwrap fifofd
    fd ← os.open_read ("/proc/self/fd/" ++ show_ℕ path)
    os.close path
    os.read_fd fd 1
    pure tt

  -- `args[0]`
  abbrev pub first_arg : List String → Exec os.World String
  first_arg [] = crash
  first_arg (a ∷ args) = pure a

  -- what the container's process does after `join_namespaces`; an error is returned as in the agent
  unfoldable pub start_child :
      Outside → Spec → NamespacePlan → Process → ℕ → Option ℕ → Exec os.World (Unit {0})
  unfolding settle announce send_to do_exec show_ℕ
  start_child ext spec plan p cfd fifofd = do
    announce p.init (settle spec plan p) (send_to ext cfd)
    optional p.init (wait_fifo fifofd)
    path ← first_arg p.oci.args
    do_exec path p.oci.args p.oci.env
    raise (error_code "fail to create container")

  -- the master that `setup_stdio` sends
  abbrev pub one_file : Outcome (List (Option (List ℕ))) → Exec os.World ℕ
  one_file (ok (some (fd ∷ []) ∷ [])) = pure fd
  one_file (ok (m ∷ [])) = raise (error_code "error in send/recvmsg!")
  one_file (ok _) = raise (error_code "error in semd/recvmsg!")
  one_file (err e) = raise e
  one_file panic = crash

  unfoldable pub receive_terminal : Process → ℕ → Exec os.World Process
  receive_terminal p console = do
    r ← attempt (os.recvmsg console)
    master ← one_file r
    close_some p.parent_console_socket
    close_some p.console_socket
    pure (record p { term_master = some master })

  abbrev pub with_terminal : Process → Option ℕ → Exec os.World Process
  with_terminal p none = pure p
  with_terminal p (some console) = receive_terminal p console

  -- the process with its number and the pipe that tells when it has ended, and the terminal
  unfoldable pub with_exit_pipe : Process → ℤ → ℕ × ℕ → Exec os.World Process
  unfolding receive_terminal
  with_exit_pipe p child (exit_pipe_r, exit_pipe_w) =
      with_terminal
        (record p { pid = child; exit_pipe_w = some exit_pipe_w; exit_pipe_r = some exit_pipe_r })
        p.parent_console_socket

  abbrev pub close_joined : CloneFlag × ℕ → Exec os.World (Unit {0})
  close_joined e = do attempt (os.close e.1); pure tt

  -- the files that the agent closes, and what it keeps of the process
  unfoldable pub prepare_process : Process → ℤ → List (CloneFlag × ℕ) → Exec os.World Process
  unfolding for_each with_exit_pipe
  prepare_process p child to_join = do
    close_some p.stdin
    close_some p.stderr
    close_some p.stdout
    for_each to_join close_joined
    exit_pipe ← chain_err "failed to create pipe" os.pipe
    with_exit_pipe p child exit_pipe

  abbrev pub created : Bool → ℤ → LinuxContainer → LinuxContainer
  created init child c = record c {
    status = some "created";
    init_process_pid = if init then child else c.init_process_pid;
  }

  abbrev pub with_process : ℤ → Process → LinuxContainer → LinuxContainer
  with_process child p c = record c { processes = put_pid child p c.processes }

  -- what the agent does after `join_namespaces`
  unfoldable pub start_parent :
      Process → ℤ → List (CloneFlag × ℕ) → Option ℕ → Exec (Ctr os.World) (Unit {0})
  unfolding prepare_process put_pid sys
  start_parent p child to_join fifofd = do
    modify (λ s. record s { ctr = created p.init child s.ctr })
    optional p.init (sys (close_some fifofd))
    q ← sys (prepare_process p child to_join)
    modify (λ s. record s { ctr = with_process child q s.ctr })

  -- `start` after `join_namespaces`, in the agent or in the container's process
  abbrev pub continue :
      Outside → Spec → NamespacePlan → Process → Option ℕ → ℤ × ℕ → Exec (Ctr os.World) (Unit {0})
  continue ext spec plan p fifofd (child, cfd) =
      if eq_ℤ child (negsuc 0)
      then sys (start_child ext spec plan p cfd fifofd)
      else start_parent p child plan.to_join fifofd

  -- `LinuxContainer::start`
  unfoldable pub start : Outside → Process → Exec (Ctr os.World) (Unit {0})
  unfolding make_fifo plan_namespaces oci_state join_namespaces start_child start_parent sys
  start ext p = do
    c ← gets (λ s. s.ctr)
    fifofd ← sys (if p.init then make_fifo c.root else pure none)
    spec ← or_raise c.config.spec (error_code "no spec")
    linux ← or_raise spec.linux (error_code "no linux config")
    plan ← sys (plan_namespaces ext.keys linux p.init c.init_process_pid)
    st ← sys (oci_state c)
    m ← unwrap c.cgroup_manager
    joined ← sys (join_namespaces ext spec plan p.init c.config.no_pivot_root m st)
    continue ext spec plan p fifofd joined

  -- `LinuxContainer::run`
  unfoldable pub run : Outside → Process → Exec (Ctr os.World) (Unit {0})
  unfolding start exec
  run ext p = do
    start ext p
    optional p.init
        (do exec; modify (λ s. record s { ctr = record s.ctr { status = some "running" } }))
