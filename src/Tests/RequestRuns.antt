-- ===== src/Tests/RequestRuns.antt =====
-- Requests that end a sandbox, bring a processor online, copy a file and change a container's limits.
use kata_rust_agent.Base.{
  ◌≤◌, ◌+◌, String, Bool, true, false, length, str_eq, none, some, [], ◌∷◌, pos, ◌≡◌, refl, arith,
}
use kata_rust_agent.Base.Dict.{Dict, get}
use kata_rust_agent.Base.Exec.{Outcome, ok, err, panic}
use kata_rust_agent.Oci.Resources.{LinuxResources}
use kata_rust_agent.Sandbox.Agent.{Agent}
use kata_rust_agent.Sandbox.Online.{online_resources}
use kata_rust_agent.Sandbox.Online.Laws.{online_resources_bound}
use kata_rust_agent.Grpc.Sandboxes.{destroy_sandbox}
use kata_rust_agent.Grpc.Files.{CopyFileRequest}
use kata_rust_agent.Os.{Os}
use kata_rust_agent.Rustjail.Container.{Manager}
use kata_rust_agent.Grpc.Limits.{update_container}
use kata_rust_agent.Grpc.Limits.Laws.{IsUpdated, update_container-IsUpdated}
use kata_rust_agent.Tests.World.{toy, agent, sandbox, container, files}

abbrev guarded : Agent (Dict String)
guarded = record agent { sandbox = record sandbox { sender = some 1 } }

abbrev ended : Agent (Dict String)
ended = (destroy_sandbox ⦃os = toy⦄ (λ ch. true) guarded).1

abbrev offline : Dict String
offline = ("/sys/devices/system/cpu/0000:01/online", "0\n") ∷ []

-- a system that keeps all that is written
abbrev logged : Os
logged = record toy { write = λ path text w. (ok tt, (path, text) ∷ w) }

abbrev online : Dict String
online = ("/sys/devices/system/cpu/0000:01/online", "1") ∷ offline

online_resources_bound_example : (1 ≤ 2) × (length online ≡ length offline + 1)
unfolding online_resources get
online_resources_bound_example =
    online_resources_bound ⦃os = logged⦄ (λ pattern name. true) "/sys/devices/system/cpu"
      "cpu[0-9]+" (λ w. length w) (λ file w. omega arith) 2 1 offline online (omega arith) refl

abbrev copy : CopyFileRequest
copy = record {
  path = "/run/agent/f";
  file_size = pos 3;
  file_mode = 0o644;
  dir_mode = 0o755;
  uid = 0;
  gid = 0;
  offset = 0;
  content = 1 ∷ 2 ∷ 3 ∷ [];
}

-- the file of the passwords
abbrev users : String
users = "/etc/passwd"

abbrev guest : Dict String
guest = (users, "root") ∷ files

abbrev HasUsers : Dict String → Type 0
HasUsers w = get users w ≡ some "root"

abbrev is_base : Outcome String → Bool
is_base (ok p) = str_eq p "/run/agent"
is_base (err e) = false
is_base panic = false

abbrev limits : LinuxResources
limits = record {
  devices = [];
  memory = none;
  cpu = none;
  pids = some (pos 100);
  block_io = none;
  hugepage_limits = [];
  network = none;
}

abbrev grouped : Manager
grouped = record {
  paths = ("pids", "/sys/fs/cgroup/pids/c") ∷ [];
  mounts = [];
  rels = [];
  cpath = "/c";
}

-- the container with a group for the number of its processes
abbrev managed : Agent (Dict String)
managed = record agent {
  sandbox = record sandbox {
    containers = ("c", record container { cgroup_manager = some grouped }) ∷ [];
  };
}

abbrev limited : Agent (Dict String)
limited = (update_container ⦃os = toy⦄ 3 "c" (some limits) managed).1

update_container-IsUpdated_example : IsUpdated ⦃os = toy⦄ 3 limits "c" managed limited
unfolding update_container
update_container-IsUpdated_example =
    update_container-IsUpdated ⦃os = toy⦄ 3 limits "c" managed limited refl
