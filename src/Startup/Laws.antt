-- ===== src/Startup/Laws.antt =====
-- The flags that the command line sets.
use kata_rust_agent.Base.{String, Bool, ◌||◌, List, [], ◌∷◌, ◌≡◌, refl, arith, starts_with, any}
use kata_rust_agent.Base.Exec.{ok}
use kata_rust_agent.Os.{Os}
use kata_rust_agent.Startup.{Flags, scan_params, pieces, parse_cmdline}

abbrev pub asks : String → String → Bool
asks flag p = starts_with p flag

scan_params_lem :
    (ps : List String) (f : Flags)
    → ((scan_params ps f).debug_console ≡ (f.debug_console || any (asks "agent.debug_console") ps))
      × ((scan_params ps f).dev_mode ≡ (f.dev_mode || any (asks "agent.devmode") ps))
unfolding scan_params
scan_params_lem [] f = (ground arith, ground arith)
scan_params_lem (p ∷ ps) f =
    let ih = scan_params_lem ps (record {
      debug_console = f.debug_console || starts_with p "agent.debug_console";
      dev_mode = f.dev_mode || starts_with p "agent.devmode";
    }) in
    (ground (arith, ih.0), ground (arith, ih.1))

module _ ⦃os : Os⦄ where
  -- A command line that can be read sets each of the two flags exactly if a parameter starts with its
  -- name, and never clears one.
  pub parse_cmdline_lem :
      (file text : String) (f : Flags) (w : os.World)
      → os.read_to_string file w ≡ ok text
      → (g : Flags) × (parse_cmdline file f w ≡ ok g)
        × (g.debug_console ≡ (f.debug_console || any (asks "agent.debug_console") (pieces text)))
        × (g.dev_mode ≡ (f.dev_mode || any (asks "agent.devmode") (pieces text)))
  unfolding parse_cmdline
  parse_cmdline_lem file text f w e = (
    scan_params (pieces text) f,
    rw (e, parse_cmdline) refl,
    (scan_params_lem (pieces text) f).0,
    (scan_params_lem (pieces text) f).1,
  )
