-- ===== src/Tests/StartupRuns.antt =====
-- A command line with one flag.
use kata_rust_agent.Base.{String, false, ◌||◌, [], ◌∷◌, ◌≡◌, refl, any}
use kata_rust_agent.Base.Dict.{Dict, get}
use kata_rust_agent.Base.Exec.{ok}
use kata_rust_agent.Startup.{Flags, pieces, parse_cmdline}
use kata_rust_agent.Startup.Laws.{asks, parse_cmdline_lem}
use kata_rust_agent.Tests.World.{toy}

abbrev command : Dict String
command = ("/proc/cmdline", "quiet agent.devmode root=/dev/pmem0") ∷ []

abbrev unset : Flags
unset = record { debug_console = false; dev_mode = false }

parse_cmdline_lem_example :
    (g : Flags) × (parse_cmdline ⦃os = toy⦄ "/proc/cmdline" unset command ≡ ok g)
    × (g.debug_console ≡ (
        unset.debug_console
        || any (asks "agent.debug_console") (pieces "quiet agent.devmode root=/dev/pmem0")))
    × (g.dev_mode ≡ (
        unset.dev_mode
        || any (asks "agent.devmode") (pieces "quiet agent.devmode root=/dev/pmem0")))
unfolding get
parse_cmdline_lem_example =
    parse_cmdline_lem ⦃os = toy⦄ "/proc/cmdline" "quiet agent.devmode root=/dev/pmem0" unset command
      refl
