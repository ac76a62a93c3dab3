-- ===== src/Lib.antt =====
-- The agent of Kata Containers in Rust: the program inside the virtual machine that starts, signals,
-- waits for and removes the containers of one sandbox at the requests of the host's runtime.
--
-- The parts, and the files that model them:
-- - Base: tests, lists, integers, text as Rust's `str` methods see it, printed numbers, hash maps as
--   association lists in the order of iteration (Base.Dict), and code that changes a state and returns,
--   fails or panics (Base.Exec).
-- - Oci, Oci.Resources: the messages of a request (protocols/protos/oci.proto) with the fields that
--   the agent reads.
-- - Os, Os.Flags: the kernel and its files as a record of calls on a type of worlds, a parameter of all
--   that follows. Nothing is assumed of it; a theorem that needs a law has it as a hypothesis.
-- - Base.Print.RoundTrip: printed numbers are read back.
-- - Sandbox, Sandbox.Agent: the state that all requests share and its methods (src/sandbox.rs).
--   Sandbox.Counts and Sandbox.Release prove what the counts of the storages do, Sandbox.Quiet is about
--   calls that leave the sandbox alone. Sandbox.Persistent: src/namespace.rs and the namespaces that the
--   sandbox shares; Sandbox.Online: processors and memory that are brought online.
-- - Grpc.Namespaces, Grpc.Remove, Grpc.Streams: the request handlers of src/grpc.rs on a new
--   container's namespaces, on the removal of a container, and on one process (`find_process`,
--   `do_signal_process`, `do_wait_process`, `do_write_stream`, `do_read_stream`; Grpc.Streams.Closing:
--   `close_stdin`, `tty_win_resize`). Grpc.Remove.Storages is
--   about a container that is the first user of a storage. Grpc.Sandboxes, Grpc.Files and Grpc.Limits:
--   the requests that create and destroy the sandbox, copy a file, ask for the guest's memory, and set and
--   read a container's limits.
-- - Reaper: the thread of src/main.rs that collects the exit codes, on one answer of `waitpid` and on
--   any sequence of them; Reaper.Waiters and Reaper.Present put it together with a request that waits.
-- - Sandbox.Orderly and the modules below it: the order in which the sandbox keeps its containers and
--   their processes, through the requests that change them. Sandbox.Orderly.Service serves any
--   sequence of requests; Base.Exec.Keeps is about calls that keep a property of the state.
-- - Uevent: src/uevent.rs, on one event of the kernel.
-- - Device.Names, Device.Update, Device.Handlers: src/device.rs. A handler registers a watcher that an
--   event of Uevent notifies; what arrives on its channel, or that nothing does in time, is the
--   parameter `recv`.
-- - Mount.Options, Mount.Bare, Mount.Cgroups, Mount.Storage: src/mount.rs. The drivers count storages
--   in the sandbox and wait for devices as Device does. Device.Keeps and Mount.Storage.Keeps are about
--   what both keep of the sandbox.
-- - Rustjail.Process, Rustjail.Container, Rustjail.Lifecycle: the container of
--   rustjail/src/container.rs, its processes and the methods that end it; Rustjail.Validator:
--   rustjail/src/validator.rs; Rustjail.Cgroups and the modules below it:
--   rustjail/src/cgroups/fs/mod.rs (Resources, Devices and Stats for the subsystems, Manager and Totals
--   for a container's groups, Procs for their processes, Sizes for huge pages). Rustjail.Limits is what
--   a container does with its groups.
-- - Rustjail.Create, Rustjail.Start, Rustjail.Join: `LinuxContainer::new`, `start`, `run` and
--   `join_namespaces` (rustjail/src/container.rs), in the agent and in the processes that it forks: `os.fork`
--   says in which of them the code goes on. Rustjail.Handshake is the system of these processes: what each
--   sends, receives and does, as lists of actions, and a step relation for any interleaving of them;
--   Rustjail.Handshake.Search goes through all of its runs. Rustjail.Identity: ids, limits and kernel
--   parameters. Grpc.Create: the requests that create and start a container and run a process in it.
-- - Rustjail.Rootfs and the modules below it: the root file system that a container's first process makes
--   (rustjail/src/mount.rs); Rustjail.Rootfs.Placed is about where a mount or a device goes.
--   Rustjail.Sync: the process ids that parent and child send each other
--   (rustjail/src/container.rs). Rustjail.Namespaces: the namespaces that `start` makes and joins, and
--   the text of the id mappings; Rustjail.Environment: the variables that `do_exec` sets.
-- - Rustjail.Capabilities: rustjail/src/capabilities.rs; Startup: the command line and the debug console
--   of src/main.rs.
-- - Tests: runs on a small operating system.
--
-- A handler holds the sandbox's lock, so it is one step on the state. Where a handler gives the lock
-- back and takes it again (the wait for a process, the thread of a removal), what others do meanwhile
-- is a parameter or a case. Rust poisons a lock whose holder panics; a panic ends the run here, except
-- in the thread that destroys a container, where what happens to the lock afterwards is not modelled,
-- and in Sandbox.Orderly.Service, which serves the next request all the same. `u32` sums wrap around,
-- as in a release build. A text that the agent hands to `libc::chmod` without a final NUL is read by C
-- up to some later NUL: `os.text_at` says which text that is.
--
-- Recursion on fuel: `copy_parent` and `get_all_procs`, whose fuel is the depth of the stack, panic in the
-- model when it is used up; Rustjail.Cgroups.CopyParent and Rustjail.Cgroups.Procs.Laws say what depth is
-- enough. `read_sync` and `write_sync` answer nothing when they are out of rounds, and Rustjail.Sync.Laws
-- says how many are enough. `custom_size` divides at most as often as the size says, digits are printed with
-- one unit more than the number, and a text is split into at most as many pieces as it has bytes.
--
-- `process::exit` counts as a panic, since nothing comes after it. In Rustjail.Handshake every call that is no
-- read succeeds, a message goes through a pipe as a whole, and the search is as deep as the longest run.
--
-- Not modelled: netlink, logging, and the generated protocols. Regular expressions, `scan_fmt!` and the text
-- of a floating point number are parameters.
pub mod Base
pub mod Oci
pub mod Os
pub mod Rustjail
pub mod Sandbox
pub mod Device
pub mod Mount
pub mod Grpc
pub mod Uevent
pub mod Reaper
pub mod Startup
pub mod Tests
