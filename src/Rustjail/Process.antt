-- ===== src/Rustjail/Process.antt =====
-- A process of a container (rustjail/src/process.rs): the file descriptors and the exit code that
-- the agent keeps of it.
pub mod Laws
use kata_rust_agent.Base.{
  ℕ, String, Bool, true, false, Option, List, [], ◌∷◌, none, some, ℤ, negsuc, pos, eq_ℤ,
  if◌then◌else◌,
}
use kata_rust_agent.Base.Exec.{Exec, ok, pure, ◌>>=◌}
use kata_rust_agent.Oci.Process.{OciProcess}
use kata_rust_agent.Os.{Os}

pub record Process : Type 0 where
  pub exec_id : String
  pub stdin : Option ℕ
  pub stdout : Option ℕ
  pub stderr : Option ℕ
  pub exit_pipe_r : Option ℕ
  pub exit_pipe_w : Option ℕ
  pub console_socket : Option ℕ
  pub term_master : Option ℕ
  pub parent_console_socket : Option ℕ
  pub parent_stdin : Option ℕ
  pub parent_stdout : Option ℕ
  pub parent_stderr : Option ℕ
  pub init : Bool
  pub pid : ℤ
  pub exit_code : ℤ
  pub oci : OciProcess

-- `HashMap<pid_t, Process>`, in the order of iteration.
abbrev pub Processes : Type 0
Processes = List (ℤ × Process)

-- `processes.get(&pid)`
unfoldable pub get_pid : ℤ → Processes → Option Process
get_pid pid [] = none
get_pid pid ((q, p) ∷ m) = if eq_ℤ q pid then some p else get_pid pid m

-- A write through `processes.get_mut(&pid)`, which leaves the keys alone.
unfoldable pub update_pid : ℤ → Process → Processes → Processes
update_pid pid p [] = []
update_pid pid p ((q, r) ∷ m) =
    let rest = update_pid pid p m in if eq_ℤ q pid then (q, p) ∷ m else (q, r) ∷ rest

-- `processes.insert(pid, p)`
unfoldable pub put_pid : ℤ → Process → Processes → Processes
put_pid pid p [] = (pid, p) ∷ []
put_pid pid p ((q, r) ∷ m) =
    let rest = put_pid pid p m in if eq_ℤ q pid then (pid, p) ∷ m else (q, r) ∷ rest

-- `processes.remove(&pid)`
unfoldable pub remove_pid : ℤ → Processes → Processes
remove_pid pid [] = []
remove_pid pid ((q, r) ∷ m) =
    let rest = remove_pid pid m in if eq_ℤ q pid then rest else (q, r) ∷ rest

-- a process before it has any file descriptor
abbrev pub bare : OciProcess → String → Bool → Process
bare oci id init = record {
  exec_id = id;
  stdin = none;
  stdout = none;
  stderr = none;
  exit_pipe_r = none;
  exit_pipe_w = none;
  console_socket = none;
  term_master = none;
  parent_console_socket = none;
  parent_stdin = none;
  parent_stdout = none;
  parent_stderr = none;
  init = init;
  pid = negsuc 0;
  exit_code = pos 0;
  oci = oci;
}

module _ ⦃os : Os⦄ where
  -- the sockets for a terminal
  abbrev pub with_console : Bool → Process → Exec os.World Process
  with_console false p = pure p
  with_console true p = do
    (parent, child) ← os.socketpair
    pure (record p { parent_console_socket = some parent; console_socket = some child })

  -- `Process::new`
  unfoldable pub new : OciProcess → String → Bool → Exec os.World Process
  new oci id init = do
    p ← with_console oci.terminal (bare oci id init)
    (stdin, parent_stdin) ← os.pipe
    (parent_stdout, stdout) ← os.pipe
    (parent_stderr, stderr) ← os.pipe
    pure (record p {
      parent_stdin = some parent_stdin;
      stdin = some stdin;
      parent_stdout = some parent_stdout;
      stdout = some stdout;
      parent_stderr = some parent_stderr;
      stderr = some stderr;
    })
