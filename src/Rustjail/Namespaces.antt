-- ===== src/Rustjail/Namespaces.antt =====
-- The namespaces that a process of a container makes or joins, and the id mappings of a user namespace
-- (`get_namespaces`, the first loop of `LinuxContainer::start` and `write_mappings` of
-- rustjail/src/container.rs).
pub mod Laws
pub mod Enter
use Prim.Native.String.{◌++◌}
use kata_rust_agent.Base.{
  ℕ, String, Bool, true, false, ◌||◌, List, [], ◌∷◌, ◌++◌ as append, ◌==◌, ℤ, str_eq, if◌then◌else◌,
}
use kata_rust_agent.Base.Dict.{Dict, get}
use kata_rust_agent.Base.Print.{show_ℕ, show_ℤ}
use kata_rust_agent.Base.Exec.{
  Exec, Outcome, ok, err, panic, nix, error_code, pure, raise, crash, or_raise, unwrap, attempt,
  ◌>>=◌,
}
use kata_rust_agent.Oci.{Linux, LinuxNamespace, LinuxIdMapping}
use kata_rust_agent.Os.{Os}
use kata_rust_agent.Os.Flags.{
  CloneFlag, newuser, newipc, newpid, newnet, newns, newuts, newcgroup, clone_index, CloneFlags,
  no_clone_flags, set_flag,
}

-- `NAMESPACES`
abbrev pub namespaces : Dict CloneFlag
namespaces =
    ("user", newuser)
    ∷ ("ipc", newipc)
    ∷ ("pid", newpid)
    ∷ ("network", newnet)
    ∷ ("mount", newns)
    ∷ ("uts", newuts)
    ∷ ("cgroup", newcgroup)
    ∷ []

-- `TYPETONAME`
abbrev pub type_to_name : Dict String
type_to_name =
    ("ipc", "ipc")
    ∷ ("user", "user")
    ∷ ("pid", "pid")
    ∷ ("network", "net")
    ∷ ("mount", "mnt")
    ∷ ("cgroup", "cgroup")
    ∷ ("uts", "uts")
    ∷ []

-- the namespaces to make, those to join with their open files, and whether one is a pid namespace
pub record NamespacePlan : Type 0 where
  pub to_new : CloneFlags
  pub to_join : List (CloneFlag × ℕ)
  pub pidns : Bool

abbrev pub empty_plan : NamespacePlan
empty_plan = record { to_new = no_clone_flags; to_join = []; pidns = false }

abbrev pub make : CloneFlag → NamespacePlan → NamespacePlan
make s p = record {
  to_new = set_flag s p.to_new;
  to_join = p.to_join;
  pidns = p.pidns || (clone_index s == clone_index newpid);
}

abbrev pub join : CloneFlag → ℕ → NamespacePlan → NamespacePlan
join s fd p = record {
  to_new = p.to_new;
  to_join = append p.to_join ((s, fd) ∷ []);
  pidns = p.pidns || (clone_index s == clone_index newpid);
}

module _ ⦃os : Os⦄ where
  -- the file of a process's namespace
  abbrev pub ns_link : String → String → String
  ns_link pid name = "/proc/" ++ pid ++ "/ns/" ++ name

  -- the loop of `get_namespaces` over the keys of `NAMESPACES`, in the order that the hash map has;
  -- the links have no slash, so that comparing the paths is comparing the texts
  unfoldable pub entered_namespaces : ℤ → List String → Exec os.World (List LinuxNamespace)
  unfolding get show_ℤ show_ℕ
  entered_namespaces pid [] = pure []
  entered_namespaces pid (key ∷ keys) = do
    name ← unwrap (get key type_to_name)
    theirs ← (λ w. (os.read_link (ns_link (show_ℤ pid) name) w, w))
    ours ← (λ w. (os.read_link (ns_link (show_ℕ (os.pid w)) name) w, w))
    rest ← entered_namespaces pid keys
    pure (
        if str_eq theirs ours
        then rest
        else record { kind = key; path = ns_link (show_ℤ pid) name } ∷ rest)

  -- `get_namespaces`
  unfoldable pub get_namespaces :
      List String → Linux → Bool → ℤ → Exec os.World (List LinuxNamespace)
  unfolding entered_namespaces
  get_namespaces keys linux true init_pid = pure linux.namespaces
  get_namespaces keys linux false init_pid = entered_namespaces init_pid keys

  -- the file of a namespace to join; logging the error unwraps its number
  abbrev pub opened : Outcome ℕ → Exec os.World ℕ
  opened (ok fd) = pure fd
  opened (err (nix e)) = raise (nix e)
  opened (err e) = crash
  opened panic = crash

  abbrev pub open_ns : String → Exec os.World ℕ
  open_ns path = do r ← attempt (os.open_read path); opened r

  abbrev pub place : LinuxNamespace → CloneFlag → NamespacePlan → Exec os.World NamespacePlan
  place ns s p =
      if str_eq ns.path "" then pure (make s p) else (do fd ← open_ns ns.path; pure (join s fd p))

  -- the loop of `start` over the namespaces
  unfoldable pub plan_from : List LinuxNamespace → NamespacePlan → Exec os.World NamespacePlan
  unfolding get
  plan_from [] p = pure p
  plan_from (ns ∷ nses) p = do
    s ← or_raise (get ns.kind namespaces) (error_code "invalid ns type")
    p' ← place ns s p
    plan_from nses p'

  -- what `start` passes to `join_namespaces`
  unfoldable pub plan_namespaces : List String → Linux → Bool → ℤ → Exec os.World NamespacePlan
  unfolding get_namespaces plan_from
  plan_namespaces keys linux init init_pid = do
    nses ← get_namespaces keys linux init init_pid
    plan_from nses empty_plan

-- the text of the mappings, in the format of `/proc/PID/uid_map`
unfoldable pub mapping_text : List LinuxIdMapping → String
unfolding show_ℕ
mapping_text [] = ""
mapping_text (m ∷ maps) =
    let rest = mapping_text maps in
    if m.size == 0
    then rest
    else show_ℕ m.container_id ++ " " ++ show_ℕ m.host_id ++ " " ++ show_ℕ m.size ++ "\n" ++ rest

module _ ⦃os : Os⦄ (as_bytes : String → List ℕ) where
  -- `defer!(unistd::close(fd).unwrap())` at the end of what `r` came from
  abbrev pub close_after : ℕ → Outcome ℕ → Exec os.World (Unit {0})
  close_after fd r = do
    closed ← attempt (os.close fd)
    elim closed [
      | ok _ ↦ elim r [ ok _ ↦ pure tt | err e ↦ raise e | panic ↦ crash ]
      | err _ ↦ crash
      | panic ↦ crash
    ]

  -- `write_mappings`
  unfoldable pub write_mappings : String → List LinuxIdMapping → Exec os.World (Unit {0})
  unfolding mapping_text
  write_mappings path maps =
      let text = mapping_text maps in
      if str_eq text ""
      then pure tt
      else (do fd ← os.open_fd path; r ← attempt (os.write_fd fd (as_bytes text)); close_after fd r)
