-- ===== src/Tests/CreateRuns.antt =====
-- A container that is created, started and given a further process, and the processes that start it.
use kata_rust_agent.Base.{
  ℕ, ℤ, ◌==◌, if◌then◌else◌, ◌≤◌, String, true, false, Option, none, some, [], ◌∷◌, all, pos, ◌≡◌,
  ◌⊎◌, refl, str_eq,
}
use kata_rust_agent.Base.Dict.{Dict, get}
use kata_rust_agent.Base.Exec.{Exec, ok, err, msg}
use kata_rust_agent.Oci.{Spec}
use kata_rust_agent.Os.{Os}
use kata_rust_agent.Grpc.Create.{
  CreateContainerRequest, options, do_create_container, do_start_container, do_exec_process,
}
use kata_rust_agent.Grpc.Create.Laws.{find, IsCreated}
use kata_rust_agent.Grpc.Create.Requests.{
  IsDictated, do_create_container-IsCreated, do_start_container-running, do_exec_process-created,
}
use kata_rust_agent.Rustjail.Container.{LinuxContainer}
use kata_rust_agent.Rustjail.Handshake.{
  Plan, System, Step, Run, stop, go, child_moves, parent_moves, move_child, move_parent, begin,
  is_done, is_matched,
}
use kata_rust_agent.Rustjail.Handshake.Laws.{
  orders, is_ordered, Run-is_matched, Run-ends, Run-is_ordered,
}
use kata_rust_agent.Rustjail.Join.{Outside}
use kata_rust_agent.Rustjail.Join.Laws.{Agrees, branches-actions}
use kata_rust_agent.Rustjail.Validator.{validate}
use kata_rust_agent.Sandbox.Agent.{Agent}
use kata_rust_agent.Tests.World.{toy, agent, program, spec}

-- a system on which the child answers at once, and all files that are read are empty
abbrev pub answering : Os
answering = record toy {
  read_fd = λ fd n w. (ok (0 ∷ 0 ∷ 0 ∷ 43 ∷ []), w);
  read_to_string = λ path w. ok "";
  exists = λ path w. str_eq path "/rootfs";
}

abbrev pub outside : Outside
outside = record {
  as_bytes = λ text. [];
  scan_head = λ line. err (msg line);
  scan_tail = λ line. err (msg line);
  display = λ e. "";
  keys = [];
  rounds = 2;
  depth = 1;
}

abbrev pub request : CreateContainerRequest
request = record { container_id = "d"; exec_id = "e"; devices = []; storages = []; oci = some spec }

abbrev create : Exec (Agent (Dict String)) (Unit {0})
create =
    do_create_container ⦃os = answering⦄ outside (λ d. "") (λ channel a. (ok none, a))
      (λ s path w. (ok tt, w)) request

abbrev made : Agent (Dict String)
made = (create agent).1

do_create_container-IsCreated_example :
    (s : Spec) × (w : Dict String) × IsDictated agent.sandbox s
    × (validate ⦃os = answering⦄ w (options agent.sandbox s) ≡ ok tt)
    × IsCreated "d" "e" (options agent.sandbox s) agent made
unfolding do_create_container
do_create_container-IsCreated_example =
    do_create_container-IsCreated ⦃os = answering⦄ outside (λ d. "") (λ channel a. (ok none, a))
      (λ s path w. (ok tt, w)) (λ n b. (refl, refl, refl, refl, refl)) request agent made refl

abbrev started : Agent (Dict String)
started = (do_start_container ⦃os = answering⦄ "d" made).1

do_start_container-running_example :
    (c : LinuxContainer) × (find "d" started ≡ some c) × (c.status ≡ some "running")
unfolding do_create_container do_start_container get
do_start_container-running_example =
    do_start_container-running ⦃os = answering⦄ "d" made started refl

abbrev entered : Agent (Dict String)
entered = (do_exec_process ⦃os = answering⦄ outside "d" "f" (some program) started).1

do_exec_process-created_example :
    (c : LinuxContainer) × (find "d" entered ≡ some c) × (c.status ≡ some "created")
unfolding do_create_container do_start_container do_exec_process get
do_exec_process-created_example =
    do_exec_process-created ⦃os = answering⦄ outside "d" "f" (some program) started entered refl

abbrev plan : Plan
plan = record { init = true; pidns = true; userns = false }

abbrev pick : Option System → System
pick none = begin plan
pick (some s) = s

-- the child has said that its user namespace is made, and the agent has read it
abbrev said : System
said = pick (move_child plan (begin plan))

abbrev heard : System
heard = pick (move_parent plan said)

two_steps : Run plan 2 (begin plan) heard
unfolding begin move_child move_parent
two_steps = go (child_moves refl) (go (parent_moves refl) stop)

Run-is_matched_example : is_matched heard ≡ true
Run-is_matched_example = Run-is_matched plan 2 heard two_steps

Run-ends_example : (2 ≤ 28) × ((is_done heard ≡ true) ⊎ ((u : System) × Step plan heard u))
Run-ends_example = Run-ends plan 2 heard two_steps

Run-is_ordered_example : all (is_ordered plan heard) (orders plan) ≡ true
Run-is_ordered_example = Run-is_ordered plan 2 heard two_steps

-- the numbers that the agent reads
abbrev incoming : ℕ → ℤ
incoming n = if n == 1 then pos 43 else pos 0

branches-actions_example : Agrees plan (pos 42) incoming
branches-actions_example = branches-actions plan (pos 42) incoming
