-- ===== src/Startup.antt =====
-- What the agent does before it serves requests (src/main.rs): the flags of the kernel's command
-- line and the debug console.
pub mod Laws
use Prim.Native.Char.{code}
use kata_rust_agent.Base.{
  ℕ, String, Bool, true, false, ◌||◌, List, [], ◌∷◌, ◌==◌, leb, ◌&&◌, not, starts_with, any,
  if◌then◌else◌,
}
use kata_rust_agent.Base.Text.{push_head}
use kata_rust_agent.Base.Exec.{
  Exec, Outcome, ok, err, panic, error_code, pure, raise, crash, gets, attempt, ◌>>=◌, ◌>>◌,
}
use kata_rust_agent.Os.{Os}

-- `char::is_ascii_whitespace`
abbrev pub is_ascii_whitespace : ℕ → Bool
is_ascii_whitespace c = (c == 32) || (c == 9) || (c == 10) || (c == 12) || (c == 13)

-- `s.split_ascii_whitespace()`, with the empty pieces that it leaves out
unfoldable pub pieces : String → List String
pieces String.[] = "" ∷ []
pieces (String.◌∷◌ c s) =
    let rest = pieces s in if is_ascii_whitespace (code c) then "" ∷ rest else push_head c rest

-- `DEBUG_CONSOLE` and `DEV_MODE`
pub record Flags : Type 0 where
  pub debug_console : Bool
  pub dev_mode : Bool

-- the loop of `parse_cmdline`; an empty piece starts with neither flag
unfoldable pub scan_params : List String → Flags → Flags
scan_params [] f = f
scan_params (p ∷ ps) f = scan_params ps (record {
  debug_console = f.debug_console || starts_with p "agent.debug_console";
  dev_mode = f.dev_mode || starts_with p "agent.devmode";
})

module _ ⦃os : Os⦄ where
  -- `parse_cmdline`
  unfoldable pub parse_cmdline : String → Flags → os.World → Outcome Flags
  unfolding pieces scan_params
  parse_cmdline file f w = elim (os.read_to_string file w) [
    | ok text ↦ ok (scan_params (pieces text) f)
    | err e ↦ err e
    | panic ↦ panic
  ]

  -- `setup_debug_console`; `spawn` starts a shell on a descriptor, `wait` waits for its end
  unfoldable pub setup_debug_console :
      (String → ℕ → Exec os.World ℕ)
      → (ℕ → Exec os.World (Unit {0}))
      → List String
      → Exec os.World (Unit {0})
  setup_debug_console spawn wait [] = raise (error_code "no shell")
  setup_debug_console spawn wait (shell ∷ shells) = do
    there ← gets (os.exists shell)
    if not there then raise (error_code "invalid shell") else (do
      f ← os.open_fd "/dev/console"
      r ← attempt (spawn shell f)
      elim r [
        | ok child ↦ wait child
        | err e ↦ raise (error_code "failed to spawn shell")
        | panic ↦ crash
      ])
