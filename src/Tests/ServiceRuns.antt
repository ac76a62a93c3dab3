-- ===== src/Tests/ServiceRuns.antt =====
-- A container that is created, started, entered and removed, and a wait for a process.
use kata_rust_agent.Base.{true, String, ℤ, ◌≡◌, refl, none, some, List, [], ◌∷◌, pos}
use kata_rust_agent.Base.Dict.{Dict, get}
use kata_rust_agent.Base.Exec.{Exec, ok, panic}
use kata_rust_agent.Base.Exec.Laws.{after}
use kata_rust_agent.Grpc.Remove.{in_time}
use kata_rust_agent.Grpc.Streams as Streams
use kata_rust_agent.Grpc.Streams.{do_wait_process, do_write_stream}
use kata_rust_agent.Grpc.Streams.Closing.{close_stdin}
use kata_rust_agent.Grpc.Streams.Closing.Laws.{close_stdin-do_write_stream}
use kata_rust_agent.Reaper.{WaitStatus, exited, still_alive, reap_children}
use kata_rust_agent.Reaper.Present.{do_wait_process-answers}
use kata_rust_agent.Rustjail.Container.{get_process}
use kata_rust_agent.Sandbox.Agent.{Agent}
use kata_rust_agent.Sandbox.Orderly.Service.{
  Request, create_container, start_container, exec_process, remove_container, signal_process,
  wait_process, close_input, end_sandbox, child, serve,
}
use kata_rust_agent.Tests.CreateRuns.{answering, outside, request}
use kata_rust_agent.Tests.ProcessRuns.{found, not_panic, not_panic_read}
use kata_rust_agent.Tests.World.{toy, agent, program}

abbrev ended : List WaitStatus
ended = exited (pos 42) (pos 3) ∷ still_alive ∷ []

abbrev requests : List Request
requests =
    create_container request
    ∷ start_container "d"
    ∷ exec_process "d" "f" (some program)
    ∷ signal_process "c" "c" 15
    ∷ wait_process ended "c" "c"
    ∷ close_input "c" "c"
    ∷ child (exited (pos 43) (pos 0))
    ∷ remove_container in_time "d"
    ∷ end_sandbox (λ channel. true)
    ∷ []

abbrev serve_all : Exec (Agent (Dict String)) (Unit {0})
serve_all =
    serve ⦃os = answering⦄ outside (λ d. "") (λ channel a. (ok none, a)) (λ s path w. (ok tt, w)) 1
      requests

do_wait_process-answers_example :
    (code : ℤ) × ((do_wait_process ⦃os = toy⦄
        (after (reap_children ⦃os = toy⦄ ended))
        "c"
        "c"
        agent).0
      ≡ ok code)
unfolding Streams.find_process get get_process
do_wait_process-answers_example =
    do_wait_process-answers ⦃os = toy⦄ (λ fd w. not_panic w) (λ fd n w. not_panic_read w) ended "c"
      "c" agent found ((refl, (refl, tt)), tt) refl

close_stdin-do_write_stream_example :
    let (r, a') = close_stdin ⦃os = toy⦄ "c" "c" agent in
    (r ≡ ok tt) × ((do_write_stream ⦃os = toy⦄ "c" "c" (104 ∷ 105 ∷ []) a').0 ≡ panic)
unfolding Streams.find_process get get_process
close_stdin-do_write_stream_example =
    close_stdin-do_write_stream ⦃os = toy⦄ (λ fd w. not_panic w) "c" "c" (104 ∷ 105 ∷ []) agent
      found refl
