-- ===== src/Grpc/Streams/Signals.antt =====
-- The signal that `do_signal_process` sends.
use kata_rust_agent.Base.{
  ℕ, String, true, false, none, List, [], ◌∷◌, ◌≡◌, refl, ap, ◌∙◌, inl, inr, Bool-cases, All, ◌^◌,
  starts_with,
}
use Prim.Native.String.{◌++◌}
use Prim.Native.Char.{Char}
use kata_rust_agent.Base.Text.{split, lines, digit_value, digits_from, parse_radix}
use kata_rust_agent.Base.Print.{show_ℤ}
use kata_rust_agent.Base.Exec.{ok, Outcome}
use kata_rust_agent.Base.Exec.Laws.{bind_step}
use kata_rust_agent.Os.{Os}
use kata_rust_agent.Sandbox.Agent.{Agent, sys}
use kata_rust_agent.Grpc.Streams.{
  Found, find, find_process, is_caught, is_signal_handled, effective_signal, signal_found,
  do_signal_process, sigterm, sigkill,
}

abbrev pub tab : Char
tab = "\t"

parse_radix-tab : (text : String) → parse_radix 16 (2 ^ 64) (String.◌∷◌ tab text) ≡ none
unfolding parse_radix digits_from digit_value
parse_radix-tab String.[] = refl
parse_radix-tab (String.◌∷◌ c s) = refl

-- A line of /proc/PID/status as the kernel writes it: a tab stands between the name and the mask.
abbrev pub HasTab : String → Type 0
HasTab line =
    starts_with line "SigCgt:" ≡ true
    → (mask : String) × (split b':' line ≡ "SigCgt" ∷ (String.◌∷◌ tab mask) ∷ [])

-- On such lines no signal counts as handled, whatever the mask.
is_caught-tab : (signum : ℕ) (text : List String) → All HasTab text → is_caught signum text ≡ false
unfolding is_caught
is_caught-tab signum [] h = refl
is_caught-tab signum (line ∷ text) h = elim (Bool-cases (starts_with line "SigCgt:")) [
  | inl here ↦ rw (here, (h.0 here).1) (rw (parse_radix-tab (h.0 here).0) refl)
  | inr other ↦ rw other (is_caught-tab signum text h.1)
]

module _ ⦃os : Os⦄ (cid eid : String) (a : Agent os.World) (f : Found) (text : String) where
  unhandled :
      os.read_to_string ("/proc/" ++ show_ℤ f.process.pid ++ "/status") a.world ≡ ok text
      → All HasTab (lines text)
      → is_signal_handled f.process.pid sigterm a.world ≡ false
  unfolding is_signal_handled
  unhandled status tabs =
      ap (λ (r : Outcome String). elim r [ ok t ↦ is_caught sigterm (lines t) | _ ↦ false ]) status
      ∙ is_caught-tab sigterm (lines text) tabs

  -- SIGTERM to the first process of a container is sent as SIGKILL also when the process handles
  -- SIGTERM, since the kernel puts a tab before the mask of the caught signals and the mask is then
  -- read as none.
  pub do_signal_process-kills :
      find_process cid eid true a.sandbox ≡ ok f
      → f.process.init ≡ true
      → os.read_to_string ("/proc/" ++ show_ℤ f.process.pid ++ "/status") a.world ≡ ok text
      → All HasTab (lines text)
      → do_signal_process cid eid sigterm a ≡ sys (os.kill f.process.pid sigkill) a
  unfolding do_signal_process
  do_signal_process-kills found init status tabs =
      bind_step (find cid eid true) (signal_found sigterm) a a f
        (unfold find in ap (λ r. (r, a)) found)
      ∙ unfold signal_found in unfold effective_signal in rw (init, unhandled status tabs) refl
