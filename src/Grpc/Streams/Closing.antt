-- ===== src/Grpc/Streams/Closing.antt =====
-- `close_stdin` and `tty_win_resize` of src/grpc.rs.
pub mod Laws
use kata_rust_agent.Base.{ℕ, ◌%◌, ◌^◌, String, false, none, some}
use kata_rust_agent.Base.Exec.{
  Exec, Outcome, ok, err, panic, msg, pure, raise, crash, gets, or_raise, attempt, modify, ◌>>=◌,
  ◌>>◌,
}
use kata_rust_agent.Os.{Os}
use kata_rust_agent.Rustjail.Process.{Process}
use kata_rust_agent.Sandbox.Agent.{Agent, sys}
use kata_rust_agent.Grpc.Streams.{Found, find_process, store, close_quietly}

-- the process without the files that write to it
abbrev pub without_input : Process → Process
without_input p = record p { term_master = none; parent_stdin = none }

module _ ⦃os : Os⦄ where
  -- the process that `close_stdin` has found
  unfoldable pub close_input : String → Found → Exec (Agent os.World) (Unit {0})
  unfolding close_quietly
  close_input cid f = do
    close_quietly f.process.term_master
    close_quietly f.process.parent_stdin
    modify (store cid f (without_input f.process))

  abbrev pub close_found : String → Outcome Found → Exec (Agent os.World) (Unit {0})
  close_found cid (ok f) = close_input cid f
  close_found cid (err e) = raise (msg "invalid argument")
  close_found cid panic = crash

  -- `close_stdin`
  unfoldable pub close_stdin : String → String → Exec (Agent os.World) (Unit {0})
  unfolding find_process close_input
  close_stdin cid eid = do s ← gets (λ a. a.sandbox); close_found cid (find_process cid eid false s)

  -- `.unwrap()` of what `find_process` answers
  abbrev expect_found : Outcome Found → Exec (Agent os.World) Found
  expect_found (ok f) = pure f
  expect_found (err e) = crash
  expect_found panic = crash

  -- `tty_win_resize`: the rows and columns as `c_ushort`
  unfoldable pub tty_win_resize : String → String → ℕ → ℕ → Exec (Agent os.World) (Unit {0})
  unfolding find_process sys
  tty_win_resize cid eid row column = do
    s ← gets (λ a. a.sandbox)
    f ← expect_found (find_process cid eid false s)
    fd ← or_raise f.process.term_master (msg "no tty")
    r ← attempt (sys (os.set_winsize fd (row % 2 ^ 16) (column % 2 ^ 16)))
    elim r [ ok _ ↦ pure tt | err _ ↦ raise (msg "ioctl error") | panic ↦ crash ]
