-- ===== src/Sandbox/Orderly/Service.antt =====
-- The agent as it serves one request that changes containers after the other, each with whatever
-- result, while its children end.
use kata_rust_agent.Base.{ℕ, String, Bool, Option, List, [], ◌∷◌}
use kata_rust_agent.Base.Exec.{Exec, pure, attempt, ◌>>◌}
use kata_rust_agent.Base.Exec.Laws.{after}
use kata_rust_agent.Base.Exec.Keeps.{Keeps}
use kata_rust_agent.Os.{Os}
use kata_rust_agent.Device.Names.{Recv}
use kata_rust_agent.Device.Handlers.{Device}
use kata_rust_agent.Grpc.Create.{
  CreateContainerRequest, do_create_container, do_start_container, do_exec_process,
}
use kata_rust_agent.Grpc.Limits.{update_container}
use kata_rust_agent.Grpc.Remove.{Wait, do_remove_container}
use kata_rust_agent.Grpc.Sandboxes.{destroy_sandbox}
use kata_rust_agent.Grpc.Streams.{do_signal_process, do_wait_process}
use kata_rust_agent.Grpc.Streams.Closing.{close_stdin}
use kata_rust_agent.Oci.{Spec}
use kata_rust_agent.Oci.Process.{OciProcess}
use kata_rust_agent.Oci.Resources.{LinuxResources}
use kata_rust_agent.Reaper.{WaitStatus, reap_child, reap_children}
use kata_rust_agent.Rustjail.Join.{Outside}
use kata_rust_agent.Sandbox.Agent.{Agent}

-- A request that changes the containers or signals one, with its fields and the answers of `waitpid` that
-- come while it waits; the end of the sandbox with whether the channel is listened to. `child` is an answer between two requests.
pub data Request : Type 0 where
  create_container : CreateContainerRequest → Request
  start_container : String → Request
  exec_process : String → String → Option OciProcess → Request
  remove_container : Wait → String → Request
  signal_process : String → String → ℕ → Request
  wait_process : List WaitStatus → String → String → Request
  close_input : String → String → Request
  limit_container : String → Option LinuxResources → Request
  end_sandbox : (ℕ → Bool) → Request
  child : WaitStatus → Request

module _ ⦃os : Os⦄ where
  module _ (ext : Outside) (show_device : Device → String) (recv : Recv)
      (save : Spec → String → Exec os.World (Unit {0})) (depth : ℕ) where
    unfoldable pub handle : Request → Exec (Agent os.World) (Unit {0})
    unfolding do_create_container do_start_container do_exec_process do_remove_container
        destroy_sandbox do_signal_process do_wait_process close_stdin update_container reap_child
        reap_children
    handle (create_container req) = do_create_container ext show_device recv save req
    handle (start_container cid) = do_start_container cid
    handle (exec_process cid eid process) = do_exec_process ext cid eid process
    handle (remove_container w cid) = do_remove_container w cid
    handle (signal_process cid eid sig) = do_signal_process cid eid sig
    handle (wait_process l cid eid) = do do_wait_process (after (reap_children l)) cid eid; pure tt
    handle (close_input cid eid) = close_stdin cid eid
    handle (limit_container cid res) = update_container depth cid res
    handle (end_sandbox send) = destroy_sandbox send
    handle (child status) = reap_child status

    -- whatever comes of a request, the next one is served
    unfoldable pub serve : List Request → Exec (Agent os.World) (Unit {0})
    unfolding handle
    serve [] = pure tt
    serve (r ∷ rs) = do attempt (handle r); serve rs
