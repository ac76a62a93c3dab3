-- ===== src/Grpc/Namespaces.antt =====
-- `update_container_namespaces` of src/grpc.rs: the namespaces that the containers of a sandbox
-- share are put into the specification of a new container.
pub mod Laws
use kata_rust_agent.Base.{
  String, Bool, true, false, not, ◌&&◌, Option, none, some, List, [], ◌∷◌, ◌++◌, map, any, str_eq,
  if◌then◌else◌,
}
use kata_rust_agent.Base.Exec.{Outcome, ok, err, error_code}
use kata_rust_agent.Oci.{LinuxNamespace, Linux, Spec}
use kata_rust_agent.Sandbox.{Sandbox}

-- `NSTYPEIPC`, `NSTYPEUTS` and `NSTYPEPID` of src/namespace.rs
abbrev pub ns_type_ipc : String
ns_type_ipc = "ipc"

abbrev pub ns_type_uts : String
ns_type_uts = "uts"

abbrev pub ns_type_pid : String
ns_type_pid = "pid"

-- the body of the loop, on one namespace
unfoldable pub update_namespace : Sandbox → LinuxNamespace → LinuxNamespace
update_namespace s n =
    if str_eq n.kind ns_type_pid
    then n
    else if str_eq n.kind ns_type_ipc
    then record n { path = s.shared_ipcns.path }
    else if str_eq n.kind ns_type_uts
    then record n { path = s.shared_utsns.path }
    else n

abbrev pub is_kind : String → LinuxNamespace → Bool
is_kind kind n = str_eq n.kind kind

-- `LinuxNamespace::new()` with its type set
abbrev pub pid_ns : LinuxNamespace
pid_ns = record { kind = ns_type_pid; path = "" }

unfoldable pub update_list : Sandbox → List LinuxNamespace → List LinuxNamespace
unfolding update_namespace
update_list s nss =
    if not (any (is_kind ns_type_pid) nss) && not s.sandbox_pid_ns
    then map (update_namespace s) nss ++ pid_ns ∷ []
    else map (update_namespace s) nss

unfoldable pub update_container_namespaces : Sandbox → Spec → Outcome Spec
unfolding update_list
update_container_namespaces s spec = elim spec.linux [
  | none ↦ err (error_code "Spec didn't container linux field")
  | some l ↦
      ok (record spec { linux = some (record l { namespaces = update_list s l.namespaces }) })
]
