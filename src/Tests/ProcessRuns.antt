-- ===== src/Tests/ProcessRuns.antt =====
-- A process that is signalled, that ends, and that is waited for; hotplug events.
use kata_rust_agent.Base.{
  ℕ, ℤ, pos, eq_ℤ, String, false, none, some, List, [], ◌≡◌, refl, arith, if◌then◌else◌,
}
use kata_rust_agent.Base.Dict.{Dict, get}
use kata_rust_agent.Base.Text.{lines, split}
use kata_rust_agent.Base.Print.{show_ℤ}
use kata_rust_agent.Base.Exec.{Outcome, ok, panic}
use kata_rust_agent.Rustjail.Process.{get_pid}
use kata_rust_agent.Rustjail.Container.{get_process}
use kata_rust_agent.Sandbox.{find_process}
use kata_rust_agent.Sandbox.Agent.{Agent, sys}
use kata_rust_agent.Grpc.Streams.{Found, do_signal_process, do_wait_process, sigterm, sigkill}
use kata_rust_agent.Grpc.Streams as Streams
use kata_rust_agent.Grpc.Streams.Signals.{do_signal_process-kills}
use kata_rust_agent.Reaper.{exited, reap_child, with_code}
use kata_rust_agent.Reaper.Laws.{reap_child-exited}
use kata_rust_agent.Base.Exec.Laws.{after}
use kata_rust_agent.Reaper.Waiters.{do_wait_process-reap_child}
use kata_rust_agent.Uevent.{Uevent, is_for, handle_uevent}
use kata_rust_agent.Uevent as Events
use kata_rust_agent.Uevent.Laws.{handle_uevent-watchers}
use kata_rust_agent.Tests.World.{toy, agent, container, init}

abbrev pub found : Found
found = record { ctr = container; pid = pos 42; process = init }

abbrev status : String
status = "Name:\tsh\nSigCgt:\t0000000000004000\n"

do_signal_process-kills_example :
    do_signal_process ⦃os = toy⦄ "c" "" sigterm agent ≡ sys (toy.kill (pos 42) sigkill) agent
unfolding Streams.find_process show_ℤ lines split get get_pid
do_signal_process-kills_example =
    do_signal_process-kills ⦃os = toy⦄ "c" "" agent found status refl refl refl
      (λ e. absurd (ground (arith, e)), (λ e. ("0000000000004000", refl), tt))

pub not_panic : {W : Type 0} (w : W) → Path (Outcome (Unit {0})) (ok tt) panic → ⊥
not_panic w e = ground (arith, e)

pub not_panic_read : {W : Type 0} (w : W) → Path (Outcome (List ℕ)) (ok []) panic → ⊥
not_panic_read w e = ground (arith, e)

reap_child-exited_example :
    let (r, a') = reap_child ⦃os = toy⦄ (exited (pos 42) (pos 3)) agent in
    (r ≡ ok tt)
    × (find_process (pos 42) a'.sandbox ≡ some ("c", with_code (pos 3) init))
    × ((q : ℤ) → eq_ℤ (pos 42) q ≡ false → find_process q a'.sandbox ≡ find_process q agent.sandbox)
unfolding find_process get_pid
reap_child-exited_example =
    reap_child-exited ⦃os = toy⦄ (pos 42) (pos 3) "c" init 5 agent refl refl (λ w. not_panic w)

abbrev reaped : Agent (Dict String) → Agent (Dict String)
reaped a = (reap_child ⦃os = toy⦄ (exited (pos 42) (pos 3)) (record agent { world = a.world })).1

abbrev event : Uevent
event = record {
  action = "add";
  devpath = "/devices/pci0000:00/02/0000:01:03/virtio4/block/vdb";
  devname = "vdb";
  subsystem = "block";
  seqnum = "7";
  interface = "";
}

handle_uevent-watchers_example :
    let (sent, a') = handle_uevent ⦃os = toy⦄ event agent in
    (get "02/0000:01:03" a'.watchers
      ≡ (if is_for event "02/0000:01:03" then none else get "02/0000:01:03" agent.watchers))
    × (get "02/0000:01:03" sent
        ≡ (if is_for event "02/0000:01:03" then get "02/0000:01:03" agent.watchers else none))
    × (get event.devpath a'.sandbox.pci_device_map ≡ some event.devname)
unfolding Events.is_block
handle_uevent-watchers_example = handle_uevent-watchers ⦃os = toy⦄ event agent "02/0000:01:03" refl

do_wait_process-reap_child_example :
    (do_wait_process ⦃os = toy⦄
      (after (reap_child ⦃os = toy⦄ (exited (pos 42) (pos 3))))
      "c"
      "c"
      agent).0
    ≡ ok (pos 3)
unfolding Streams.find_process find_process get_pid get get_process
do_wait_process-reap_child_example =
    do_wait_process-reap_child ⦃os = toy⦄ "c" "c" (pos 3) agent found container init 5 refl refl
      refl refl refl (λ fd w. not_panic w) (λ fd n w. not_panic_read w)
