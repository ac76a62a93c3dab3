-- ===== src/Rustjail/Create/Laws.antt =====
-- What a new container is (`LinuxContainer::new` of rustjail/src/container.rs).
use Prim.Native.String.{◌++◌}
use kata_rust_agent.Base.{String, some, [], negsuc, ◌≡◌, refl}
use mathlib.Core.Path.{subst}
use kata_rust_agent.Base.Exec.{Exec, ok, nix, einval, pure, gets, or_raise, ◌>>=◌, ◌>>◌}
use kata_rust_agent.Base.Exec.Laws.{bind_ok, then_ok, read_then, value}
use kata_rust_agent.Oci.{Linux, Spec}
use kata_rust_agent.Os.{Os}
use kata_rust_agent.Rustjail.Cgroups.Manager.{new as new_manager}
use kata_rust_agent.Rustjail.Cgroups.Totals.{get_mounts}
use kata_rust_agent.Rustjail.Container.{Config, LinuxContainer, Manager}
use kata_rust_agent.Rustjail.Create.{cgroups_path, make_root, own_root, new}
use kata_rust_agent.Rustjail.Validator.{validate}

module _ ⦃os : Os⦄ where
  -- the container has no process, and is the one that was asked for
  abbrev pub IsNew : String → Config → LinuxContainer → Type 0
  IsNew id config c =
      (c.id ≡ id)
      × (c.config ≡ config)
      × (c.status ≡ some "stopped")
      × (c.processes ≡ [])
      × ((m : Manager) × (c.cgroup_manager ≡ some m))

  -- A container that is made has a valid configuration, which it keeps, has its cgroups and no process,
  -- and counts as stopped.
  pub new-IsNew :
      (id base : String) (config : Config) (c : LinuxContainer) (w w' : os.World)
      → new id base config w ≡ (ok c, w')
      → (validate w config ≡ ok tt) × IsNew id config c
  unfolding new
  new-IsNew id base config c w w' h =
      let root = base ++ "/" ++ id in
      let build : Manager → _ → LinuxContainer = λ m time. record {
        id = id;
        root = root;
        config = config;
        cgroup_manager = some m;
        init_process_pid = negsuc 0;
        init_process_start_time = time;
        processes = [];
        status = some "stopped";
      } in
      let time_of : Manager → Exec os.World LinuxContainer =
        λ m. gets os.now >>= λ time. pure (build m time) in
      let manage : Linux → Exec os.World LinuxContainer =
        λ linux. new_manager get_mounts (cgroups_path id linux) >>= time_of in
      let linux_of : Spec → Exec os.World LinuxContainer =
        λ spec. or_raise spec.linux (nix einval) >>= manage in
      let spec_of : Exec os.World LinuxContainer = or_raise config.spec (nix einval) >>= linux_of in
      let owned : Exec os.World LinuxContainer = own_root id root >> spec_of in
      let (_, valid, h1) =
        read_then (validate w config) (λ _. make_root id root >> owned) w c w' h in
      let (t1, h2) = then_ok (make_root id root) owned w c w' h1 in
      let (t2, h3) = then_ok (own_root id root) spec_of t1 c w' h2 in
      let (spec, t3, _, h4) = bind_ok (or_raise config.spec (nix einval)) linux_of t2 c w' h3 in
      let (linux, t4, _, h5) = bind_ok (or_raise spec.linux (nix einval)) manage t3 c w' h4 in
      let (m, t5, _, h6) =
        bind_ok (new_manager get_mounts (cgroups_path id linux)) time_of t4 c w' h5 in
      let (time, t6, _, h7) = bind_ok (gets os.now) (λ time. pure (build m time)) t5 c w' h6 in
      (
        valid,
        subst (IsNew id config) (value (build m time) c t6 w' h7)
            (refl, refl, refl, refl, (m, refl)),
      )
