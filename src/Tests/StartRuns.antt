-- ===== src/Tests/StartRuns.antt =====
-- Namespaces and variables of processes that start.
use kata_rust_agent.Base.{String, false, none, All, List, [], ◌∷◌, map, any, pos, ◌≡◌, refl}
use kata_rust_agent.Base.Dict.{Dict, get}
use kata_rust_agent.Base.Exec.{ok}
use kata_rust_agent.Oci.{Linux, LinuxNamespace}
use kata_rust_agent.Os.{Os}
use kata_rust_agent.Os.Flags.{CloneFlag, newpid, newipc, newnet}
use kata_rust_agent.Rustjail.Namespaces.{NamespacePlan, empty_plan, make, join, plan_namespaces}
use kata_rust_agent.Rustjail.Namespaces.Laws.{
  IsKnown, is_new, is_type, joined, plan_namespaces-init,
}
use kata_rust_agent.Rustjail.Namespaces.Enter.{IsApart, IsCovered, IsOpened, plan_namespaces-enter}
use kata_rust_agent.Rustjail.Environment.{exec_env, has_char}
use kata_rust_agent.Rustjail.Environment.Laws.{entry, last_value, exec_env-get}
use kata_rust_agent.Tests.World.{toy, files}

abbrev own_pid_and_joined_net : Linux
own_pid_and_joined_net = record {
  uid_mappings = [];
  gid_mappings = [];
  sysctl = [];
  resources = none;
  cgroups_path = "";
  namespaces = record { kind = "pid"; path = "" } ∷ record { kind = "network"; path = "/n" } ∷ [];
  devices = [];
  masked_paths = [];
  readonly_paths = [];
  rootfs_propagation = "";
}

abbrev first_plan : NamespacePlan
first_plan = join newnet 3 (make newpid empty_plan)

plan_namespaces-init_example :
    All IsKnown own_pid_and_joined_net.namespaces
    × ((f : CloneFlag) → first_plan.to_new f ≡ any (is_new f) own_pid_and_joined_net.namespaces)
    × (map (λ x. x.0) first_plan.to_join ≡ joined own_pid_and_joined_net.namespaces)
    × (first_plan.pidns ≡ any (is_type newpid) own_pid_and_joined_net.namespaces)
unfolding plan_namespaces
plan_namespaces-init_example =
    plan_namespaces-init ⦃os = toy⦄ [] own_pid_and_joined_net (pos 0) first_plan files files refl

-- each link reads as its own path, so that no namespace is shared
abbrev apart : Os
apart = record toy { read_link = λ path w. ok path }

abbrev entered_plan : NamespacePlan
entered_plan = join newipc 3 empty_plan

plan_namespaces-enter_example :
    ((f : CloneFlag) → entered_plan.to_new f ≡ false)
    × (nses : List LinuxNamespace) × All (IsApart ⦃os = apart⦄ (pos 42) files) nses
    × All (IsCovered ⦃os = apart⦄ (pos 42) files nses) ("ipc" ∷ [])
    × IsOpened ⦃os = apart⦄ nses entered_plan.to_join
unfolding plan_namespaces
plan_namespaces-enter_example =
    plan_namespaces-enter ⦃os = apart⦄ ("ipc" ∷ []) own_pid_and_joined_net (pos 42) entered_plan
      files files refl

abbrev variables : Dict String
variables = ("HOME", "/root") ∷ ("OPTS", "a=b") ∷ []

exec_env-get_example :
    (env' : Dict String) × (exec_env (map entry variables) (("PATH", "/bin") ∷ []) ≡ ok env')
    × ((j : String) → get j env' ≡ last_value j variables)
unfolding has_char
exec_env-get_example =
    exec_env-get variables (("PATH", "/bin") ∷ [])
      ((refl, refl, refl, refl), ((refl, refl, refl, refl), tt))
