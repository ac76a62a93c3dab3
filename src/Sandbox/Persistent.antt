-- ===== src/Sandbox/Persistent.antt =====
-- Namespaces that outlive their processes (src/namespace.rs), and those that a sandbox shares
-- (`setup_shared_namespaces` of src/sandbox.rs).
use Prim.Native.String.{◌++◌}
use kata_rust_agent.Base.{ℕ, String, none, [], ◌∷◌, ◌≡◌, ◌≢◌, refl, arith, ap, ◌∙◌}
use kata_rust_agent.Base.Dict.{Dict, get}
use kata_rust_agent.Base.Print.{show_ℕ}
use kata_rust_agent.Base.Exec.{
  Exec, Outcome, ok, err, panic, Error, error_code, pure, raise, gets, or_raise, attempt,
  join_thread, modify, crash, ◌>>=◌, ◌>>◌,
}
use kata_rust_agent.Base.Exec.Laws.{bind_ok, or_raise-ok, value}
use kata_rust_agent.Os.{Os}
use kata_rust_agent.Os.Flags.{single, union, bind, rec, no_flags}
use kata_rust_agent.Mount.Bare.{mount}
use kata_rust_agent.Sandbox.{Namespace}
use kata_rust_agent.Sandbox.Agent.{Agent, sys}

-- `CLONE_FLAG_TABLE`: `CLONE_NEWIPC` and `CLONE_NEWUTS`
abbrev pub clone_flag_table : Dict ℕ
clone_flag_table = ("ipc", 0x08000000) ∷ ("uts", 0x04000000) ∷ []

abbrev pub persistent_ns_dir : String
persistent_ns_dir = "/var/run/sandbox-ns"

abbrev pub ns_file : String → String
ns_file ns_type = persistent_ns_dir ++ "/" ++ ns_type

module _ ⦃os : Os⦄ where
  -- `get_current_thread_ns_path`
  unfoldable pub get_current_thread_ns_path : String → os.World → String
  unfolding show_ℕ
  get_current_thread_ns_path ns_type w =
      "/proc/" ++ show_ℕ (os.pid w) ++ "/task/" ++ show_ℕ (os.tid w) ++ "/ns/" ++ ns_type

  -- what the new thread does once the type is known: it leaves for a namespace of its own, and mounts
  -- that on the file
  abbrev pub enter_and_mount : String → String → ℕ → Exec os.World (Unit {0})
  enter_and_mount origin target flag = do
    os.unshare flag
    mount (record {
      source = origin;
      destination = target;
      fs_type = "none";
      flags = union no_flags (union (single bind) (single rec));
      options = "";
    })

  -- the new thread
  unfoldable pub persist : String → String → Exec os.World (Unit {0})
  unfolding get_current_thread_ns_path get mount
  persist ns_type target = do
    origin ← gets (get_current_thread_ns_path ns_type)
    os.open_read origin
    flag ←
        or_raise (get ns_type clone_flag_table) (error_code ("Failed to get ns type " ++ ns_type))
    enter_and_mount origin target flag

  -- what `join` gives
  abbrev pub joined : Outcome (Unit {0}) → Exec os.World (Unit {0})
  joined (ok _) = pure tt
  joined (err e) = raise e
  joined panic = raise (error_code "Failed to join thread")

  -- `setup_persistent_ns`; an error stands for its text
  unfoldable pub setup_persistent_ns : String → Exec os.World Namespace
  unfolding persist
  setup_persistent_ns ns_type = do
    os.create_dir_all persistent_ns_dir
    os.create (ns_file ns_type)
    r ← join_thread (persist ns_type (ns_file ns_type))
    joined r
    pure (record { path = ns_file ns_type })

  -- `Sandbox::setup_shared_namespaces`; `display` is the text of an error
  module _ (display : Error → String) where
    abbrev pub or_report : String → Outcome Namespace → Exec (Agent os.World) Namespace
    or_report text (ok ns) = pure ns
    or_report text (err e) = raise (error_code (text ++ display e))
    or_report text panic = crash

    unfoldable pub setup_shared_namespaces : Exec (Agent os.World) (Unit {0})
    unfolding setup_persistent_ns sys
    setup_shared_namespaces = do
      ipc ← attempt (sys (setup_persistent_ns "ipc"))
      ipcns ← or_report "Failed to setup persisten IPC namespace with error: " ipc
      modify (λ s. record s { sandbox = record s.sandbox { shared_ipcns = ipcns } })
      uts ← attempt (sys (setup_persistent_ns "uts"))
      utsns ← or_report "Failed to setup persisten UTS namespace with error: " uts
      modify (λ s. record s { sandbox = record s.sandbox { shared_utsns = utsns } })

  joined-ok :
      (r : Outcome (Unit {0})) (u : Unit {0}) (w w' : os.World)
      → joined r w ≡ (ok u, w')
      → r ≡ ok tt
  joined-ok (ok _) u w w' h = refl
  joined-ok (err e) u w w' h =
      absurd (ground (arith, ap (λ (x : Outcome (Unit {0}) × os.World). x.0) h))
  joined-ok panic u w w' h =
      absurd (ground (arith, ap (λ (x : Outcome (Unit {0}) × os.World). x.0) h))

  -- a thread that returns found its type in the table
  persist-known :
      (ns_type target : String) (w w' : os.World)
      → persist ns_type target w ≡ (ok tt, w')
      → get ns_type clone_flag_table ≢ none
  unfolding persist
  persist-known ns_type target w w' h unknown =
      let error : Error = error_code ("Failed to get ns type " ++ ns_type) in
      let find : String → Exec os.World (Unit {0}) =
        λ origin. or_raise (get ns_type clone_flag_table) error >>= enter_and_mount origin target in
      let (origin, t, _, h1) =
        bind_ok (gets (get_current_thread_ns_path ns_type))
          (λ origin. os.open_read origin >> find origin) w tt w' h in
      let (_, t1, _, h2) = bind_ok (os.open_read origin) (λ _. find origin) t tt w' h1 in
      let (flag, t2, found, _) =
        bind_ok (or_raise (get ns_type clone_flag_table) error) (enter_and_mount origin target) t1
          tt w' h2 in
      let there = or_raise-ok (get ns_type clone_flag_table) error flag t1 t2 found in
      ground (arith, there, unknown)

  -- Only the ipc and the uts namespace can be made persistent: any other type is refused, whatever the
  -- system answers.
  pub setup_persistent_ns-unknown :
      (ns_type : String) (w w' : os.World) (ns : Namespace)
      → get ns_type clone_flag_table ≡ none
      → setup_persistent_ns ns_type w ≢ (ok ns, w')
  unfolding setup_persistent_ns
  setup_persistent_ns-unknown ns_type w w' ns unknown h =
      let finish : Outcome (Unit {0}) → Exec os.World Namespace =
        λ r. joined r >> pure (record { path = ns_file ns_type }) in
      let thread : Exec os.World Namespace =
        join_thread (persist ns_type (ns_file ns_type)) >>= finish in
      let (_, t, _, h1) =
        bind_ok (os.create_dir_all persistent_ns_dir) (λ _. os.create (ns_file ns_type) >> thread) w
          ns w' h in
      let (_, t1, _, h2) = bind_ok (os.create (ns_file ns_type)) (λ _. thread) t ns w' h1 in
      let (r, t2, made, h3) =
        bind_ok (join_thread (persist ns_type (ns_file ns_type))) finish t1 ns w' h2 in
      let (u, t3, joins, _) =
        bind_ok (joined r) (λ _. pure (record { path = ns_file ns_type })) t2 ns w' h3 in
      let ended : (persist ns_type (ns_file ns_type) t1).0 ≡ ok tt =
        value (persist ns_type (ns_file ns_type) t1).0 r _ t2 made ∙ joined-ok r u t2 t3 joins in
      persist-known ns_type (ns_file ns_type) t1 (persist ns_type (ns_file ns_type) t1).1
        (λ i. (ended i, (persist ns_type (ns_file ns_type) t1).1)) unknown
