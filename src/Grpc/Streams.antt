-- ===== src/Grpc/Streams.antt =====
-- The handlers of src/grpc.rs on one process of a container: finding it, signalling it, waiting for
-- it, and reading and writing its streams.
pub mod Signals
pub mod Waiting
pub mod Closing
use kata_rust_agent.Base.{
  ℕ, ◌+◌, ◌-◌, ◌%◌, ◌^◌, String, Bool, true, false, not, ◌&&◌, Option, none, some, List, [], ◌∷◌,
  ◌==◌, ltb, length, ℤ, str_eq, starts_with, if◌then◌else◌,
}
use Prim.Native.Nat.{bit_and}
use Prim.Native.String.{◌++◌}
use kata_rust_agent.Base.Dict.{get, put}
use kata_rust_agent.Base.Text.{split, lines, parse_radix}
use kata_rust_agent.Base.Print.{show_ℤ}
use kata_rust_agent.Base.Exec.{
  Exec, Outcome, ok, err, panic, error_code, nix, eagain, eio, einval, pure, raise, crash, gets,
  unwrap, or_raise, attempt, modify, ◌>>=◌, ◌>>◌,
}
use kata_rust_agent.Os.{Os}
use kata_rust_agent.Rustjail.Process.{Process, get_pid, update_pid, remove_pid}
use kata_rust_agent.Rustjail.Container.{LinuxContainer, get_process}
use kata_rust_agent.Sandbox.{Sandbox}
use kata_rust_agent.Sandbox.Agent.{Agent, sys}

-- A process where the sandbox holds it: the container and the pid it is filed under.
pub record Found : Type 0 where
  pub ctr : LinuxContainer
  pub pid : ℤ
  pub process : Process

abbrev pub find_init : LinuxContainer → Outcome Found
find_init c = elim (get_pid c.init_process_pid c.processes) [
  | none ↦ err (error_code "cannot find init process!")
  | some p ↦ ok (record { ctr = c; pid = c.init_process_pid; process = p })
]

abbrev pub find_exec : String → LinuxContainer → Outcome Found
find_exec eid c = elim (get_process eid c.processes) [
  | none ↦ err (error_code "Invalid exec id")
  | some (pid, p) ↦ ok (record { ctr = c; pid = pid; process = p })
]

-- `find_process`
unfoldable pub find_process : String → String → Bool → Sandbox → Outcome Found
find_process cid eid init s = elim (get cid s.containers) [
  | none ↦ err (error_code "Invalid container id")
  | some c ↦ if init && str_eq eid "" then find_init c else find_exec eid c
]

abbrev pub sigterm : ℕ
sigterm = 15

abbrev pub sigkill : ℕ
sigkill = 9

-- `1u64 << (signum - 1)` on a `u32` shift count, as a release build computes it.
abbrev pub signal_mask : ℕ → ℕ
signal_mask signum = 2 ^ ((signum + (2 ^ 32 - 1)) % 64)

-- the `SigCgt` line of /proc/PID/status, on the first line that starts with it
unfoldable pub is_caught : ℕ → List String → Bool
unfolding split parse_radix
is_caught signum [] = false
is_caught signum (line ∷ rest) =
    let later = is_caught signum rest in
    if starts_with line "SigCgt:"
    then elim (split b':' line) [
      | head ∷ text ∷ [] ↦ elim (parse_radix 16 (2 ^ 64) text) [
        | none ↦ false
        | some mask ↦ bit_and mask (signal_mask signum) == signal_mask signum
      ]
      | _ ↦ false
    ]
    else later

-- The process that a handler works on after it has been changed.
abbrev pub store : {W : Type 0} → String → Found → Process → Agent W → Agent W
store cid f p a = record a {
  sandbox = record a.sandbox {
    containers =
        put cid (record f.ctr { processes = update_pid f.pid p f.ctr.processes })
          a.sandbox.containers;
  };
}

-- `ctr.processes.remove(&pid)`
abbrev pub drop_process : {W : Type 0} → String → ℤ → LinuxContainer → Agent W → Agent W
drop_process cid pid ctr a = record a {
  sandbox = record a.sandbox {
    containers =
        put cid (record ctr { processes = remove_pid pid ctr.processes }) a.sandbox.containers;
  };
}

module _ ⦃os : Os⦄ where
  unfoldable pub find : String → String → Bool → Exec (Agent os.World) Found
  find cid eid init a = (find_process cid eid init a.sandbox, a)

  -- `is_signal_handled`: an unreadable file counts as no handler
  unfoldable pub is_signal_handled : ℤ → ℕ → os.World → Bool
  is_signal_handled pid signum w =
      elim (os.read_to_string ("/proc/" ++ show_ℤ pid ++ "/status") w) [
        | ok text ↦ is_caught signum (lines text)
        | _ ↦ false
      ]

  -- the signal that is sent: SIGTERM to a first process without a handler becomes SIGKILL
  unfoldable pub effective_signal : Process → ℕ → os.World → ℕ
  effective_signal p sig w =
      if p.init && (sig == sigterm) && not (is_signal_handled p.pid sig w) then sigkill else sig

  -- the rest of `do_signal_process`. `Signal::from_c_int` knows the signals 1 to 31.
  unfoldable pub signal_found : ℕ → Found → Exec (Agent os.World) (Unit {0})
  unfolding effective_signal sys
  signal_found sig f = do
    if ltb 0 sig && ltb sig 32 then pure tt else crash
    chosen ← gets (λ a. effective_signal f.process sig a.world)
    sys (os.kill f.process.pid chosen)

  -- `do_signal_process`
  unfoldable pub do_signal_process : String → String → ℕ → Exec (Agent os.World) (Unit {0})
  unfolding find signal_found
  do_signal_process cid eid sig = find cid eid true >>= signal_found sig

  -- `let _ = unistd::close(fd)` where there is one
  unfoldable pub close_quietly : Option ℕ → Exec (Agent os.World) (Unit {0})
  unfolding sys
  close_quietly none = pure tt
  close_quietly (some fd) = do attempt (sys (os.close fd)); pure tt

  -- the read of the exit pipe, which returns when the process has ended
  unfoldable pub await_exit : Option ℕ → Exec (Agent os.World) (Unit {0})
  unfolding sys
  await_exit none = pure tt
  await_exit (some fd) = do attempt (sys (os.read_fd fd 2)); pure tt

  unfoldable pub close_all : Process → Exec (Agent os.World) (Unit {0})
  unfolding close_quietly
  close_all p = do
    close_quietly p.parent_stdin
    close_quietly p.parent_stdout
    close_quietly p.parent_stderr
    close_quietly p.term_master
    close_quietly p.exit_pipe_r

  -- the second half of `do_wait_process`, under its second lock
  unfoldable pub reap_process : String → ℤ → LinuxContainer → Process → Exec (Agent os.World) ℤ
  unfolding close_all
  reap_process cid pid ctr p = do close_all p; modify (drop_process cid pid ctr); pure p.exit_code

  unfoldable pub reap : String → ℤ → Exec (Agent os.World) ℤ
  unfolding reap_process
  reap cid pid = do
    c ← gets (λ a. get cid a.sandbox.containers)
    ctr ← unwrap c
    p ← unwrap (get_pid pid ctr.processes)
    reap_process cid pid ctr p

  -- `do_wait_process`. The reader of the exit pipe waits outside the lock, so the container and the
  -- process are looked up again afterwards; `reaped` is what other threads do meanwhile.
  unfoldable pub wait_found :
      (Agent os.World → Agent os.World) → String → Found → Exec (Agent os.World) ℤ
  unfolding await_exit reap
  wait_found reaped cid f = do
    await_exit f.process.exit_pipe_r
    modify reaped
    reap cid f.process.pid

  unfoldable pub do_wait_process :
      (Agent os.World → Agent os.World) → String → String → Exec (Agent os.World) ℤ
  unfolding find wait_found
  do_wait_process reaped cid eid = find cid eid false >>= wait_found reaped cid

  -- the rest of `do_write_stream`: the bytes written, none where the descriptor is not ready
  unfoldable pub write_found : List ℕ → Found → Exec (Agent os.World) ℕ
  unfolding sys
  write_found bytes f = do
    fd ← elim f.process.term_master [ none ↦ unwrap f.process.parent_stdin | some m ↦ pure m ]
    r ← attempt (sys (os.write_fd fd bytes))
    elim r [
      | ok v ↦ pure ((if ltb v (length bytes) then v else length bytes) % 2 ^ 32)
      | err (nix eagain) ↦ pure 0
      | _ ↦ raise (nix eio)
    ]

  -- `do_write_stream`
  unfoldable pub do_write_stream : String → String → List ℕ → Exec (Agent os.World) ℕ
  unfolding find write_found
  do_write_stream cid eid bytes = find cid eid false >>= write_found bytes

  -- `read_stream`: an end of file is an error, a descriptor that is not ready gives nothing
  unfoldable pub read_stream : ℕ → ℕ → Exec (Agent os.World) (List ℕ)
  unfolding sys
  read_stream fd l = do
    r ← attempt (sys (os.read_fd fd l))
    elim r [
      | ok [] ↦ raise (error_code "read  meet eof")
      | ok (b ∷ bytes) ↦ pure (b ∷ bytes)
      | err (nix eagain) ↦ pure []
      | err (nix e) ↦ raise (nix e)
      | err _ ↦ raise (error_code "read error")
      | panic ↦ crash
    ]

  -- the descriptor that `do_read_stream` reads from; -1 is `none`
  unfoldable pub read_end : Bool → Process → Exec (Agent os.World) (Option ℕ)
  read_end stdout p = elim p.term_master [
    | some m ↦ pure (some m)
    | none ↦
        if stdout then pure p.parent_stdout else (do fd ← unwrap p.parent_stderr; pure (some fd))
  ]

  unfoldable pub do_read_stream : String → String → ℕ → Bool → Exec (Agent os.World) (List ℕ)
  unfolding find read_end read_stream
  do_read_stream cid eid l stdout = do
    f ← find cid eid false
    end ← read_end stdout f.process
    fd ← or_raise end (nix einval)
    read_stream fd l
