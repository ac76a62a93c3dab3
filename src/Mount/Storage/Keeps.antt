-- ===== src/Mount/Storage/Keeps.antt =====
-- What the storages of a request keep of the sandbox (src/mount.rs): all that does not speak of counts and
-- that the threads keep that run while it waits.
use Prim.Native.String.{◌++◌}
use kata_rust_agent.Base.{
  ℕ, String, Bool, true, false, not, List, [], ◌∷◌, starts_with, if◌then◌else◌,
}
use kata_rust_agent.Base.Dict.{Dict, get}
use kata_rust_agent.Base.Exec.{Exec, Error, error_code, pure, or_raise, raise_if, ◌>>=◌, ◌>>◌}
use kata_rust_agent.Base.Exec.Keeps.{Keeps, bind-Keeps, then-Keeps, or_raise-Keeps, raise_if-Keeps}
use kata_rust_agent.Os.{Os, Stat}
use kata_rust_agent.Device.Names.{Recv, get_scsi_device_name, get_pci_device_name}
use kata_rust_agent.Mount.Storage.{
  Storage, Driver, virtio_blk, virtio_9p, virtiofs, ephemeral, virtiommio_blk, local, virtio_scsi,
  driver_of, listed, passes_as_block, mount_storage, common_storage_handler,
  ephemeral_storage_handler, apply_mode, local_storage_handler, virtio_blk_storage_handler,
  virtio_scsi_storage_handler, handle, add_storages,
}
use kata_rust_agent.Mount.Options.{parse_options}
use kata_rust_agent.Sandbox.{Sandbox, set_sandbox_storage}
use kata_rust_agent.Sandbox.Agent.{Agent, sys, on_sandbox}
use kata_rust_agent.Device.Keeps.{On, sys-On, set_storage-On, get_scsi-On, get_pci-On}

module _ ⦃os : Os⦄ (P : Sandbox → Type 0)
    (free : (m : Dict ℕ) (s : Sandbox) → P s → P (record s { storages = m })) where
  abbrev Step : Type 0 → Type 0
  Step A = Exec (Agent os.World) A

  common-On : (st : Storage) → Keeps (On P) (common_storage_handler st)
  unfolding common_storage_handler
  common-On st =
      then-Keeps (On P) (sys (mount_storage st)) (pure st.mount_point) (sys-On P (mount_storage st))
        (λ a k. k)

  unless-On :
      (b : Bool) (name : String) (first : Step String)
      → Keeps (On P) first
      → Keeps (On P) (if not b then pure name else first)
  unless-On true name first hf s h = hf s h
  unless-On false name first hf s h = h

  ephemeral-On : (st : Storage) → Keeps (On P) (ephemeral_storage_handler st)
  unfolding ephemeral_storage_handler
  ephemeral-On st =
      let make : Exec os.World (Unit {0}) = os.create_dir_all st.mount_point in
      let first : Step String = sys make >> common_storage_handler st in
      bind-Keeps (On P) (on_sandbox (set_sandbox_storage st.mount_point))
        (λ new. if not new then pure "" else first) (set_storage-On P free st.mount_point)
        (λ new.
          unless-On new "" first (
            then-Keeps (On P) (sys make) (common_storage_handler st) (sys-On P make)
              (common-On st)))

  local-On : (st : Storage) → Keeps (On P) (local_storage_handler st)
  unfolding local_storage_handler
  local-On st =
      let make : Exec os.World (Unit {0}) = os.create_dir_all st.mount_point in
      let mode : Exec os.World (Unit {0}) =
        apply_mode st.mount_point (get "mode" (parse_options st.options)) in
      let first : Step String = sys make >> (sys mode >> pure "") in
      bind-Keeps (On P) (on_sandbox (set_sandbox_storage st.mount_point))
        (λ new. if not new then pure "" else first) (set_storage-On P free st.mount_point)
        (λ new. unless-On new "" first (
          then-Keeps (On P) (sys make) (sys mode >> pure "") (sys-On P make)
            (then-Keeps (On P) (sys mode) (pure "") (sys-On P mode) (λ a k. k))))

  choose-On :
      (b : Bool) (x y : Step String)
      → Keeps (On P) x
      → Keeps (On P) y
      → Keeps (On P) (if b then x else y)
  choose-On true x y hx hy s h = hx s h
  choose-On false x y hx hy s h = hy s h

  module _ (recv : Recv) (fair : (n : ℕ) → Keeps (On P) (recv n)) where
    found-On :
        (st : Storage) (m : Step String)
        → Keeps (On P) m
        → Keeps (On P) (m >>= λ path. common_storage_handler (record st { source = path }))
    found-On st m hm =
        bind-Keeps (On P) m (λ path. common_storage_handler (record st { source = path })) hm
          (λ path. common-On (record st { source = path }))

    blk-On : (st : Storage) → Keeps (On P) (virtio_blk_storage_handler recv st)
    unfolding virtio_blk_storage_handler
    blk-On st =
        let stat : Step Stat = λ a. (os.metadata st.source a.world, a) in
        let invalid : Error = error_code ("Invalid device " ++ st.source) in
        let check : Stat → Step String =
          λ meta. raise_if (not (passes_as_block meta.mode)) invalid >> common_storage_handler st in
        choose-On (starts_with st.source "/dev") (stat >>= check)
          (get_pci_device_name recv st.source >>= λ path.
            common_storage_handler (record st { source = path }))
          (bind-Keeps (On P) stat check (λ a k. k)
            (λ meta.
              then-Keeps (On P) (raise_if (not (passes_as_block meta.mode)) invalid)
                (common_storage_handler st)
                (raise_if-Keeps (On P) (not (passes_as_block meta.mode)) invalid) (common-On st)))
          (found-On st (get_pci_device_name recv st.source) (get_pci-On P recv fair st.source))

    storage-On : (driver : Driver) (st : Storage) → Keeps (On P) (handle recv driver st)
    unfolding handle virtio_scsi_storage_handler
    storage-On virtio_blk st = blk-On st
    storage-On virtio_scsi st =
        found-On st (get_scsi_device_name recv st.source) (get_scsi-On P recv fair st.source)
    storage-On ephemeral st = ephemeral-On st
    storage-On local st = local-On st
    storage-On virtio_9p st = common-On st
    storage-On virtiofs st = common-On st
    storage-On virtiommio_blk st = common-On st

    pub add_storages-On : (l : List Storage) → Keeps (On P) (add_storages recv l)
    unfolding add_storages
    add_storages-On [] s h = h
    add_storages-On (st ∷ rest) s h =
        let unknown : Error = error_code ("Failed to find the storage handler " ++ st.driver) in
        let keep : String → List String → Step (List String) =
          λ path mounts. pure (listed path mounts) in
        let later : String → Step (List String) = λ path. add_storages recv rest >>= keep path in
        let act : Driver → Step (List String) = λ driver. handle recv driver st >>= later in
        bind-Keeps (On P) (or_raise (driver_of st.driver) unknown) act
          (or_raise-Keeps (On P) (driver_of st.driver) unknown)
          (λ driver. bind-Keeps (On P) (handle recv driver st) later (storage-On driver st) (λ path.
            bind-Keeps (On P) (add_storages recv rest) (keep path) (add_storages-On rest)
              (λ mounts a k. k)))
          s h
