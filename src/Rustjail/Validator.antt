-- ===== src/Rustjail/Validator.antt =====
-- Validation of a container's specification (rustjail/src/validator.rs).
pub mod Laws
pub mod Ids
use Prim.Native.String.{◌++◌}
use Prim.Native.Char.{code}
use kata_rust_agent.Base.{
  ℕ, ◌+◌, ◌%◌, ◌^◌, String, Bool, true, false, not, ◌&&◌, ◌||◌, Option, none, some, List, [], ◌∷◌,
  leb, ltb, ◌==◌, str_eq, starts_with, any, if◌then◌else◌,
}
use kata_rust_agent.Base.Dict.{Dict, has}
use kata_rust_agent.Base.Text.{split, trim, parse_u32}
use kata_rust_agent.Base.Exec.{Outcome, ok, err, panic, Error, error_code, nix, einval, parse_int}
use kata_rust_agent.Oci.{LinuxNamespace, LinuxIdMapping, Linux, Mount, Spec}
use kata_rust_agent.Os.{Os}
use kata_rust_agent.Rustjail.Container.{Config}

-- Checks only read the world, so they return an outcome.
infixl 5 ◌>>=◌ ◌>>◌
abbrev pub ◌>>=◌ : {A B : Type 0} → Outcome A → (A → Outcome B) → Outcome B
ok a >>= f = f a
err e >>= f = err e
panic >>= f = panic

abbrev pub ◌>>◌ : {A B : Type 0} → Outcome A → Outcome B → Outcome B
m >> k = m >>= λ _. k

abbrev pub refuse_if : Bool → Error → Outcome (Unit {0})
refuse_if true e = err e
refuse_if false e = ok tt

abbrev pub expect : {A : Type 0} → Option A → Outcome A
expect none = panic
expect (some a) = ok a

-- `contain_namespace`
unfoldable pub contain_namespace : List LinuxNamespace → String → Bool
contain_namespace [] key = false
contain_namespace (ns ∷ nses) key = str_eq ns.kind key || contain_namespace nses key

-- `get_namespace_path`
unfoldable pub get_namespace_path : List LinuxNamespace → String → Outcome String
get_namespace_path [] key = err (nix einval)
get_namespace_path (ns ∷ nses) key =
    if str_eq ns.kind key then ok ns.path else get_namespace_path nses key

-- One component of an absolute path on the stack of those before it, the last on top. Rust's
-- `components` leaves out empty ones and "."; ".." goes up, and stays at the root.
unfoldable pub push_component : List String → String → List String
push_component stack c =
    if str_eq c "" || str_eq c "."
    then stack
    else if str_eq c ".."
    then elim stack [ [] ↦ [] | top ∷ below ↦ below ]
    else c ∷ stack

unfoldable pub push_components : List String → List String → List String
unfolding push_component
push_components stack [] = stack
push_components stack (c ∷ cs) = push_components (push_component stack c) cs

-- `cleaned`, from the stack: each component after a slash, and "/" for none
unfoldable pub path_of : List String → String → String
path_of [] rest = if str_eq rest "" then "/" else rest
path_of (top ∷ below) rest = path_of below ("/" ++ top ++ rest)

unfoldable pub clean : String → String
unfolding split push_components path_of
clean root = path_of (push_components [] (split b'/' root)) ""

-- `hostname`
unfoldable pub hostname : Spec → Outcome (Unit {0})
unfolding contain_namespace
hostname oci = if str_eq oci.hostname "" then ok tt else elim oci.linux [
  | none ↦ err (nix einval)
  | some l ↦ refuse_if (not (contain_namespace l.namespaces "uts")) (nix einval)
]

abbrev pub is_empty {ℓ} : {A : Type ℓ} → List A → Bool
is_empty [] = true
is_empty (x ∷ xs) = false

-- `security`
unfoldable pub security : Linux → Outcome (Unit {0})
unfolding contain_namespace
security l =
    if is_empty l.masked_paths && is_empty l.readonly_paths
    then ok tt
    else refuse_if (not (contain_namespace l.namespaces "mount")) (nix einval)

abbrev pub has_size : LinuxIdMapping → Bool
has_size m = ltb 0 m.size

-- `idmapping`
unfoldable pub idmapping : List LinuxIdMapping → Outcome (Unit {0})
idmapping maps = refuse_if (not (any has_size maps)) (nix einval)

-- `SYSCTLS`, the keys that belong to the ipc namespace
abbrev pub sysctls : Dict Bool
sysctls =
    ("kernel.msgmax", true)
    ∷ ("kernel.msgmnb", true)
    ∷ ("kernel.msgmni", true)
    ∷ ("kernel.sem", true)
    ∷ ("kernel.shmall", true)
    ∷ ("kernel.shmmax", true)
    ∷ ("kernel.shmmni", true)
    ∷ ("kernel.shm_rmid_forced", true)
    ∷ []

-- the first test of the loop of `sysctl`
unfoldable pub is_ipc_key : String → Bool
unfolding has
is_ipc_key key = has key sysctls || starts_with key "fs.mqueue."

-- `rootless_euid_mapping`
unfoldable pub rootless_euid_mapping : Linux → Outcome (Unit {0})
unfolding contain_namespace
rootless_euid_mapping l = do
  refuse_if (not (contain_namespace l.namespaces "user")) (nix einval)
  refuse_if (is_empty l.uid_mappings || is_empty l.gid_mappings) (nix einval)

-- `has_idmapping`, with the sum of two `u32` as a release build computes it
unfoldable pub has_idmapping : List LinuxIdMapping → ℕ → Bool
has_idmapping [] id = false
has_idmapping (m ∷ ms) id =
    (leb m.container_id id && ltb id ((m.container_id + m.size) % 2 ^ 32)) || has_idmapping ms id

-- one option of a mount: an id of a user or a group must be mapped
unfoldable pub check_option : Linux → String → Outcome (Unit {0})
unfolding split trim parse_u32 has_idmapping
check_option l opt =
    if starts_with opt "uid=" || starts_with opt "gid="
    then elim (split b'=' opt) [
      | key ∷ value ∷ [] ↦ elim (parse_u32 (trim value)) [
        | none ↦ err parse_int
        | some id ↦ do
          refuse_if (starts_with opt "uid=" && not (has_idmapping l.uid_mappings id)) (nix einval)
          refuse_if (starts_with opt "gid=" && not (has_idmapping l.gid_mappings id)) (nix einval)
      ]
      | _ ↦ err (nix einval)
    ]
    else ok tt

-- A check on each element, up to the first that fails.
unfoldable pub check_each : {A : Type 0} → (A → Outcome (Unit {0})) → List A → Outcome (Unit {0})
check_each check [] = ok tt
check_each check (x ∷ xs) = check x >> check_each check xs

abbrev pub check_mount : Linux → Mount → Outcome (Unit {0})
check_mount l m = check_each (check_option l) m.options

-- `rootless_euid_mount` and `rootless_euid`
unfoldable pub rootless_euid : Spec → Linux → Outcome (Unit {0})
unfolding rootless_euid_mapping check_each check_option
rootless_euid oci l = do rootless_euid_mapping l; check_each (check_mount l) oci.mounts

module _ ⦃os : Os⦄ (w : os.World) where
  -- `rootfs`: an absolute path that is there, with no symbolic link on it
  unfoldable pub rootfs : String → Outcome (Unit {0})
  unfolding clean
  rootfs root = do
    refuse_if (not (os.exists root w) || not (starts_with root "/")) (nix einval)
    canon ← os.canonicalize root w
    refuse_if (not (str_eq (clean root) canon)) (nix einval)

  -- `usernamespace`
  unfoldable pub usernamespace : Linux → Outcome (Unit {0})
  unfolding contain_namespace idmapping
  usernamespace l =
      if contain_namespace l.namespaces "user"
      then (do
        refuse_if (not (os.exists "/proc/self/ns/user" w))
            (error_code "user namespace not supported!")
        idmapping l.uid_mappings
        idmapping l.gid_mappings)
      else refuse_if (not (is_empty l.uid_mappings) || not (is_empty l.gid_mappings)) (nix einval)

  -- `cgroupnamespace`
  unfoldable pub cgroupnamespace : Linux → Outcome (Unit {0})
  unfolding contain_namespace
  cgroupnamespace l =
      refuse_if
        (contain_namespace l.namespaces "cgroup" && not (os.exists "/proc/self/ns/cgroup" w))
        (error_code "cgroup unsupported!")

  -- `check_host_ns`: a link to the agent's own network namespace is refused
  unfoldable pub check_host_ns : String → Outcome (Unit {0})
  check_host_ns path = do
    real_hpath ← os.read_link "/proc/self/ns/net" w
    link ← os.is_symlink path w
    if not link then ok tt else (do
      real_cpath ← os.read_link path w
      refuse_if (str_eq real_cpath real_hpath) (nix einval))

  -- the end of the loop of `sysctl`, which every key reaches that did not `continue`
  unfoldable pub uts_key : List LinuxNamespace → String → Outcome (Unit {0})
  unfolding contain_namespace
  uts_key nses key =
      refuse_if (not (contain_namespace nses "uts" && str_eq key "kernel.domainname")) (nix einval)

  -- the body of the loop of `sysctl`, on one key
  unfoldable pub check_sysctl : List LinuxNamespace → String → Outcome (Unit {0})
  unfolding is_ipc_key contain_namespace get_namespace_path check_host_ns uts_key
  check_sysctl nses key =
      if is_ipc_key key
      then refuse_if (not (contain_namespace nses "ipc")) (nix einval)
      else if starts_with key "net."
      then (do
        refuse_if (not (contain_namespace nses "network")) (nix einval)
        net ← get_namespace_path nses "network"
        if str_eq net "" then ok tt else (do check_host_ns net; uts_key nses key))
      else uts_key nses key

  abbrev pub check_entry : List LinuxNamespace → String × String → Outcome (Unit {0})
  check_entry nses e = check_sysctl nses e.0

  -- `sysctl`
  unfoldable pub sysctl : Linux → Outcome (Unit {0})
  unfolding check_each check_sysctl
  sysctl l = check_each (check_entry l.namespaces) l.sysctl

  -- `validate`
  unfoldable pub validate : Config → Outcome (Unit {0})
  unfolding rootfs hostname security usernamespace cgroupnamespace sysctl rootless_euid
  validate conf = do
    oci ← expect conf.spec
    elim oci.linux [
      | none ↦ err (nix einval)
      | some l ↦ elim oci.root [
        | none ↦ err (nix einval)
        | some root ↦ do
          rootfs root
          hostname oci
          security l
          usernamespace l
          cgroupnamespace l
          sysctl l
          if conf.rootless_euid then rootless_euid oci l else ok tt
      ]
    ]
