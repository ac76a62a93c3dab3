-- ===== src/Os.antt =====
-- The kernel, its file system and its processes, as the agent sees them through Rust's `std`, `nix`
-- and `libc`. None of this is code of the repository, so all of it is a parameter: a type of states
-- of the world, and the calls the agent makes. A call that changes the world returns the new one
-- with its outcome.
pub mod Flags
use kata_rust_agent.Base.{ℕ, String, Bool, Option, List, ℤ}
use kata_rust_agent.Base.Dict.{Dict}
use kata_rust_agent.Base.Exec.{Outcome, Exec, Errno, crash, ◌>>=◌, ◌>>◌, ok, err, panic}
use kata_rust_agent.Oci.{Hook, OciState}
use Flags.{MsFlags, CloneFlag, CloneFlags}

-- The fields of `fs::Metadata` that are read: the permission bits with the file's type, and `rdev`
-- as its major and minor numbers.
pub record Stat : Type 0 where
  pub mode : ℕ
  pub rdev_major : ℕ
  pub rdev_minor : ℕ

-- `caps::CapSet`, less the bounding set
pub data CapSet : Type 0 where
  effective permitted inheritable ambient : CapSet

pub record Os : Type 1 where
  pub World : Type 0
  -- `fs::write`
  pub write : String → String → Exec World (Unit {0})
  -- `fs::read_to_string`, and the lines of a `BufReader` over an opened file
  pub read_to_string : String → World → Outcome String
  -- `fs::create_dir_all`, `fs::remove_dir_all`
  pub create_dir_all : String → Exec World (Unit {0})
  pub remove_dir_all : String → Exec World (Unit {0})
  -- `OpenOptions::new().create(true).open(p)`
  pub open_create : String → Exec World (Unit {0})
  -- `Path::exists`, `Path::is_dir`, `Path::is_file`
  pub exists : String → World → Bool
  pub is_dir : String → World → Bool
  pub is_file : String → World → Bool
  -- `Path::parent`
  pub parent : String → Option String
  -- `fs::metadata`, `fs::set_permissions` with a mode
  pub metadata : String → World → Outcome Stat
  pub set_permissions : String → ℕ → Exec World (Unit {0})
  -- the names in a directory, in the order of `fs::read_dir`
  pub read_dir : String → World → Outcome (List String)
  -- `fs::canonicalize`, `Path::read_link`, and whether `symlink_metadata` says symbolic link
  pub canonicalize : String → World → Outcome String
  pub read_link : String → World → Outcome String
  pub is_symlink : String → World → Outcome Bool
  -- `libc::mount` of source, target, type, flags and data; `nix::mount::umount`
  pub mount : String → String → String → MsFlags → String → Exec World (Unit {0})
  pub umount : String → Exec World (Unit {0})
  -- `nix::mount::mount`, where the source, the type and the data may be absent; `umount2` with
  -- `MNT_DETACH`
  pub nix_mount :
      Option String → String → Option String → MsFlags → Option String → Exec World (Unit {0})
  pub umount_detach : String → Exec World (Unit {0})
  -- `unistd::getcwd`, `chdir`, `fchdir`, `chroot`, `pivot_root`; `path_absolutize::absolutize`
  pub getcwd : Exec World String
  pub chdir : String → Exec World (Unit {0})
  pub fchdir : ℕ → Exec World (Unit {0})
  pub chroot : String → Exec World (Unit {0})
  pub pivot_root : String → String → Exec World (Unit {0})
  pub absolutize : String → World → Outcome String
  -- `unix::fs::symlink` of a target and the link's path; `fs::remove_file`
  pub symlink : String → String → Exec World (Unit {0})
  pub remove_file : String → Exec World (Unit {0})
  -- `stat::mknod` of a path, a type with a mode, and a device; `unistd::chown`; `stat::umask`
  pub mknod : String → ℕ → ℕ → Exec World (Unit {0})
  pub chown : String → ℕ → ℕ → Exec World (Unit {0})
  pub umask : ℕ → Exec World ℕ
  -- `OpenOptions::new().create(true).write(true).open(p)`, `File::create(p)`
  pub touch : String → Exec World (Unit {0})
  pub create : String → Exec World (Unit {0})
  -- `fcntl::open` for reading and writing, created with a mode; of a directory, for reading
  pub open_rw : String → ℕ → Exec World ℕ
  pub open_dir : String → Exec World ℕ
  -- `File::open(p)`, and `fcntl::open` of it with no flags
  pub open_read : String → Exec World ℕ
  -- `libc::chmod`; `file.write_all_at` of the file that `touch` opened; the size of `stat::stat`;
  -- `fs::rename`; `Path::set_extension`
  -- what a C function reads at the address of a text that has no NUL at its end, with what follows it in
  -- memory
  pub text_at : String → World → String
  pub chmod : String → ℕ → Exec World (Unit {0})
  pub write_at : String → List ℕ → ℕ → Exec World (Unit {0})
  pub stat_size : String → World → Outcome ℤ
  pub rename : String → String → Exec World (Unit {0})
  pub with_extension : String → String → String
  -- the numbers of the process and of a new thread, and `sched::unshare` in that thread
  pub pid : World → ℕ
  pub tid : World → ℕ
  pub unshare : ℕ → Exec World (Unit {0})
  -- `signal::kill`, `unistd::close`
  pub kill : ℤ → ℕ → Exec World (Unit {0})
  pub close : ℕ → Exec World (Unit {0})
  -- `unistd::write` returns how many bytes it took; `unistd::read` of at most so many bytes
  pub write_fd : ℕ → List ℕ → Exec World ℕ
  pub read_fd : ℕ → ℕ → Exec World (List ℕ)
  -- `fcntl::open` for writing
  pub open_fd : String → Exec World ℕ
  -- `Errno::last()`, the error number that the last failed call left
  pub last_errno : World → Errno
  -- the seconds of `SystemTime::now()` since 1970
  pub now : World → ℕ
  -- the status that the forked child of `execute_hook` sends back: it spawns the hook, feeds it the
  -- state and waits at most the hook's timeout
  pub hook_child : String → Hook → OciState → Exec World ℤ
  -- `unistd::pipe2` and `socketpair`, both ends closed at an exec; `unistd::fork` is the child's number
  -- in the parent and `none` in the child; `process::exit`, after which nothing comes
  pub pipe : Exec World (ℕ × ℕ)
  pub socketpair : Exec World (ℕ × ℕ)
  pub fork : Exec World (Option ℤ)
  pub exit : ℤ → Exec World (Unit {0})
  -- `unistd::mkfifo` with a mode; `fcntl::open` with `O_PATH`, and for reading and writing
  pub mkfifo : String → ℕ → Exec World (Unit {0})
  pub open_path : String → Exec World ℕ
  pub open_update : String → Exec World ℕ
  -- `file.write_all` of a text
  pub write_all : ℕ → String → Exec World (Unit {0})
  -- the control messages of `socket::recvmsg`: the files of a `ScmRights`, or another; `sendmsg` of files
  pub recvmsg : ℕ → Exec World (List (Option (List ℕ)))
  pub sendmsg : ℕ → List ℕ → Exec World (Unit {0})
  -- the ioctl `TIOCSWINSZ` with rows and columns
  pub set_winsize : ℕ → ℕ → ℕ → Exec World (Unit {0})
  -- `pty::openpty`, the master and the slave; `setsid`; the ioctl `TIOCSCTTY`; `dup2`
  pub openpty : Exec World (ℕ × ℕ)
  pub setsid : Exec World (Unit {0})
  pub set_terminal : ℕ → Exec World (Unit {0})
  pub dup2 : ℕ → ℕ → Exec World (Unit {0})
  -- `prctl::set_keep_capabilities`, `set_no_new_privileges`
  pub set_keep_capabilities : Bool → Exec World (Unit {0})
  pub set_no_new_privileges : Bool → Exec World (Unit {0})
  -- `setresgid` and `setresuid` of one id three times; `setgroups`; `setrlimit` of a resource, the soft
  -- and the hard limit
  pub setresgid : ℕ → Exec World (Unit {0})
  pub setresuid : ℕ → Exec World (Unit {0})
  pub setgroups : List ℕ → Exec World (Unit {0})
  pub setrlimit : ℕ → ℕ → ℕ → Exec World (Unit {0})
  pub getuid : World → ℕ
  pub getgid : World → ℕ
  -- the crate `caps`: all capabilities, `drop` from the bounding set, and `set` of another set
  pub caps_all : List ℕ
  pub caps_drop_bounding : ℕ → Exec World (Unit {0})
  pub caps_set : CapSet → (ℕ → Bool) → Exec World (Unit {0})
  -- `sched::setns`, `sched::unshare`, `unistd::sethostname`
  pub setns : ℕ → CloneFlag → Exec World (Unit {0})
  pub unshare_flags : CloneFlags → Exec World (Unit {0})
  pub sethostname : String → Exec World (Unit {0})
  -- the process's environment, and `unistd::execvp` in another one
  pub env_vars : World → Dict String
  pub execvp : String → List String → Dict String → Exec World (Unit {0})

-- `process::exit` does not return: what would come after it counts as a panic
abbrev pub leave : ⦃os : Os⦄ {A : Type 0} → ℤ → Exec os.World A
leave ⦃os⦄ code = os.exit code >> crash
