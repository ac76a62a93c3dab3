-- ===== src/Tests/World.antt =====
-- A small operating system: a table of the files' texts, every call answered as for a system on
-- which it succeeds, and a sandbox with one running container.
use kata_rust_agent.Base.{String, true, false, Option, none, some, [], ◌∷◌, length, pos}
use kata_rust_agent.Base.Dict.{Dict, get, put, remove, has}
use kata_rust_agent.Base.Exec.{Outcome, ok, err, io, not_found, unknown}
use kata_rust_agent.Oci.{Linux, Spec}
use kata_rust_agent.Oci.Process.{OciProcess}
use kata_rust_agent.Os.{Os}
use kata_rust_agent.Rustjail.Process.{Process}
use kata_rust_agent.Rustjail.Container.{Config, LinuxContainer}
use kata_rust_agent.Sandbox.{Sandbox}
use kata_rust_agent.Sandbox.Agent.{Agent}

abbrev pub read : Option String → Outcome String
read none = err (io not_found)
read (some text) = ok text

abbrev pub toy : Os
toy = record {
  World = Dict String;
  write = λ path text w. (ok tt, put path text w);
  read_to_string = λ path w. read (get path w);
  create_dir_all = λ path w. (ok tt, put path "" w);
  remove_dir_all = λ path w. (ok tt, remove path w);
  open_create = λ path w. (ok tt, put path "" w);
  exists = λ path w. has path w;
  is_dir = λ path w. has path w;
  is_file = λ path w. has path w;
  parent = λ path. some path;
  metadata = λ path w. ok (record { mode = 0o060644; rdev_major = 8; rdev_minor = 1 });
  set_permissions = λ path mode w. (ok tt, w);
  read_dir = λ path w. ok ("0000:01" ∷ []);
  canonicalize = λ path w. ok path;
  read_link = λ path w. ok "net:[1]";
  is_symlink = λ path w. ok false;
  mount = λ source target kind flags text w. (ok tt, put target source w);
  umount = λ path w. (ok tt, w);
  nix_mount = λ source target kind flags text w. (ok tt, put target "" w);
  umount_detach = λ path w. (ok tt, w);
  getcwd = λ w. (ok "/", w);
  chdir = λ path w. (ok tt, w);
  fchdir = λ fd w. (ok tt, w);
  chroot = λ path w. (ok tt, w);
  pivot_root = λ new old w. (ok tt, w);
  absolutize = λ path w. ok path;
  symlink = λ target path w. (ok tt, put path target w);
  remove_file = λ path w. (ok tt, remove path w);
  mknod = λ path mode dev w. (ok tt, put path "" w);
  chown = λ path uid gid w. (ok tt, w);
  umask = λ mode w. (ok 18, w);
  touch = λ path w. (ok tt, put path "" w);
  create = λ path w. (ok tt, put path "" w);
  open_rw = λ path mode w. (ok 3, put path "" w);
  open_dir = λ path w. (ok 3, w);
  open_read = λ path w. (ok 3, w);
  text_at = λ text w. text;
  chmod = λ path mode w. (ok tt, w);
  write_at = λ path bytes offset w. (ok tt, w);
  stat_size = λ path w. ok (pos 3);
  rename = λ from to w. (ok tt, put to "" (remove from w));
  with_extension = λ path extension. path;
  pid = λ w. 1;
  tid = λ w. 2;
  unshare = λ flags w. (ok tt, w);
  kill = λ pid sig w. (ok tt, w);
  close = λ fd w. (ok tt, w);
  write_fd = λ fd bytes w. (ok (length bytes), w);
  read_fd = λ fd n w. (ok [], w);
  open_fd = λ path w. (ok 3, w);
  last_errno = λ w. unknown;
  now = λ w. 7;
  hook_child = λ path h st w. (ok (pos 0), w);
  pipe = λ w. (ok (10, 11), w);
  socketpair = λ w. (ok (12, 13), w);
  fork = λ w. (ok (some (pos 43)), w);
  exit = λ code w. (ok tt, w);
  mkfifo = λ path mode w. (ok tt, put path "" w);
  open_path = λ path w. (ok 3, w);
  open_update = λ path w. (ok 3, w);
  write_all = λ fd text w. (ok tt, w);
  recvmsg = λ fd w. (ok (some (14 ∷ []) ∷ []), w);
  sendmsg = λ fd fds w. (ok tt, w);
  set_winsize = λ fd rows columns w. (ok tt, w);
  openpty = λ w. (ok (15, 16), w);
  setsid = λ w. (ok tt, w);
  set_terminal = λ fd w. (ok tt, w);
  dup2 = λ old new w. (ok tt, w);
  set_keep_capabilities = λ on w. (ok tt, w);
  set_no_new_privileges = λ on w. (ok tt, w);
  setresgid = λ gid w. (ok tt, w);
  setresuid = λ uid w. (ok tt, w);
  setgroups = λ gids w. (ok tt, w);
  setrlimit = λ resource soft hard w. (ok tt, w);
  getuid = λ w. 0;
  getgid = λ w. 0;
  caps_all = [];
  caps_drop_bounding = λ c w. (ok tt, w);
  caps_set = λ which caps w. (ok tt, w);
  setns = λ fd flag w. (ok tt, w);
  unshare_flags = λ flags w. (ok tt, w);
  sethostname = λ name w. (ok tt, w);
  env_vars = λ w. [];
  execvp = λ path args env w. (ok tt, w);
}

abbrev pub linux : Linux
linux = record {
  uid_mappings = [];
  gid_mappings = [];
  sysctl = ("kernel.domainname", "x") ∷ [];
  resources = none;
  cgroups_path = "/c";
  namespaces =
      record { kind = "uts"; path = "" } ∷ record { kind = "network"; path = "/run/netns/x" } ∷ [];
  devices = [];
  masked_paths = [];
  readonly_paths = [];
  rootfs_propagation = "private";
}

abbrev pub program : OciProcess
program = record {
  terminal = false;
  user = none;
  args = "/bin/sh" ∷ [];
  env = [];
  cwd = "/";
  capabilities = none;
  rlimits = [];
  no_new_privileges = false;
  oom_score_adj = pos 0;
}

abbrev pub spec : Spec
spec = record {
  version = "1.0";
  process = some program;
  root = some "/rootfs";
  root_readonly = true;
  hostname = "h";
  mounts = [];
  hooks = none;
  annotations = [];
  linux = some linux;
}

abbrev pub config : Config
config = record {
  cgroup_name = "c";
  use_systemd_cgroup = false;
  no_pivot_root = false;
  no_new_keyring = false;
  spec = some spec;
  rootless_euid = false;
  rootless_cgroup = false;
}

abbrev pub init : Process
init = record {
  exec_id = "c";
  stdin = none;
  stdout = none;
  stderr = none;
  exit_pipe_r = some 4;
  exit_pipe_w = some 5;
  console_socket = none;
  term_master = none;
  parent_console_socket = none;
  parent_stdin = some 6;
  parent_stdout = some 7;
  parent_stderr = none;
  init = true;
  pid = pos 42;
  exit_code = pos 0;
  oci = program;
}

abbrev pub container : LinuxContainer
container = record {
  id = "c";
  root = "/run/c";
  config = config;
  cgroup_manager = none;
  init_process_pid = pos 42;
  init_process_start_time = 0;
  processes = (pos 42, init) ∷ [];
  status = some "running";
}

abbrev pub sandbox : Sandbox
sandbox = record {
  id = "s";
  hostname = "h";
  containers = ("c", container) ∷ [];
  mounts = [];
  container_mounts = ("c", "/mnt" ∷ []) ∷ [];
  pci_device_map = [];
  shared_utsns = record { path = "/var/run/sandbox-ns/uts" };
  shared_ipcns = record { path = "/var/run/sandbox-ns/ipc" };
  storages = ("/mnt", 2) ∷ [];
  running = true;
  no_pivot_root = false;
  sandbox_pid_ns = false;
  sender = none;
}

abbrev pub files : Dict String
files =
    ("/rootfs", "")
    ∷ ("/mnt", "")
    ∷ ("/proc/42/status", "Name:\tsh\nSigCgt:\t0000000000004000\n")
    ∷ []

abbrev pub agent : Agent (Dict String)
agent = record {
  sandbox = sandbox;
  watchers = ("02/0000:01:03", 9) ∷ [];
  channels = 10;
  world = files;
}
