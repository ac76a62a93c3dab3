-- ===== src/Mount/Storage.antt =====
-- The storage drivers and `add_storages` of src/mount.rs.
pub mod Keeps
pub mod Laws
use Prim.Native.Nat.{bit_and}
use Prim.Native.String.{◌++◌}
use kata_rust_agent.Base.{
  ℕ, ◌^◌, String, Bool, true, false, not, ◌||◌, Option, none, some, List, [], ◌∷◌, ◌==◌, str_eq,
  starts_with, if◌then◌else◌,
}
use kata_rust_agent.Base.Dict.{Dict, get}
use kata_rust_agent.Base.Text.{parse_radix}
use kata_rust_agent.Base.Exec.{
  Exec, Outcome, ok, error_code, parse_int, pure, raise, gets, or_raise, chain_err, raise_if, ◌>>=◌,
  ◌>>◌,
}
use kata_rust_agent.Os.{Os}
use kata_rust_agent.Sandbox.{set_sandbox_storage}
use kata_rust_agent.Sandbox.Agent.{Agent, sys, on_sandbox}
use kata_rust_agent.Device.Names.{Recv, get_pci_device_name, get_scsi_device_name}
use kata_rust_agent.Mount.Options.{parse_mount_flags_and_options, parse_options}
use kata_rust_agent.Mount.Bare.{BareMount, mount, ensure_destination_exists}

-- `Storage` of protocols/protos/agent.proto
pub record Storage : Type 0 where
  pub driver : String
  pub source : String
  pub fstype : String
  pub options : List String
  pub mount_point : String

-- The drivers of `STORAGEHANDLERLIST`.
pub data Driver : Type 0 where
  virtio_blk virtio_9p virtiofs ephemeral virtiommio_blk local virtio_scsi : Driver

abbrev pub storage_handler_list : Dict Driver
storage_handler_list =
    ("blk", virtio_blk)
    ∷ ("9p", virtio_9p)
    ∷ ("virtio-fs", virtiofs)
    ∷ ("ephemeral", ephemeral)
    ∷ ("mmioblk", virtiommio_blk)
    ∷ ("local", local)
    ∷ ("scsi", virtio_scsi)
    ∷ []

unfoldable pub driver_of : String → Option Driver
unfolding get
driver_of name = get name storage_handler_list

-- `libc::S_IFBLK`
abbrev pub s_ifblk : ℕ
s_ifblk = 0o060000

-- the test that lets a mode pass as that of a block device
unfoldable pub passes_as_block : ℕ → Bool
passes_as_block mode = not (bit_and mode s_ifblk == 0)

-- A mount point is listed unless it is empty.
abbrev pub listed : String → List String → List String
listed m ms = if str_eq m "" then ms else m ∷ ms

module _ ⦃os : Os⦄ where
  -- `mount_storage`
  unfoldable pub mount_storage : Storage → Exec os.World (Unit {0})
  unfolding mount ensure_destination_exists parse_mount_flags_and_options
  mount_storage storage = do
    if str_eq storage.fstype "9p" || str_eq storage.fstype "virtio-fs"
        then (do
          there ← gets (os.exists storage.mount_point)
          if there
              then pure tt
              else chain_err "Create mount destination failed"
                  (os.create_dir_all storage.mount_point))
        else ensure_destination_exists storage.mount_point storage.fstype
    let parsed = parse_mount_flags_and_options storage.options
    mount (record {
      source = storage.source;
      destination = storage.mount_point;
      fs_type = storage.fstype;
      flags = parsed.0;
      options = parsed.1;
    })

  -- `common_storage_handler`
  unfoldable pub common_storage_handler : Storage → Exec (Agent os.World) String
  unfolding mount_storage sys
  common_storage_handler storage = do sys (mount_storage storage); pure storage.mount_point

  -- `ephemeral_storage_handler`: only the first user of the storage mounts it
  unfoldable pub ephemeral_storage_handler : Storage → Exec (Agent os.World) String
  unfolding common_storage_handler on_sandbox sys
  ephemeral_storage_handler storage = do
    new ← on_sandbox (set_sandbox_storage storage.mount_point)
    if not new
        then pure ""
        else (do sys (os.create_dir_all storage.mount_point); common_storage_handler storage)

  -- the "mode" option of a local storage
  unfoldable pub apply_mode : String → Option String → Exec os.World (Unit {0})
  unfolding parse_radix
  apply_mode mount_point none = pure tt
  apply_mode mount_point (some mode) = do
    meta ← λ w. (os.metadata mount_point w, w)
    o_mode ← or_raise (parse_radix 8 (2 ^ 32) mode) parse_int
    os.set_permissions mount_point o_mode

  -- `local_storage_handler`
  unfoldable pub local_storage_handler : Storage → Exec (Agent os.World) String
  unfolding on_sandbox sys apply_mode parse_options get
  local_storage_handler storage = do
    new ← on_sandbox (set_sandbox_storage storage.mount_point)
    if not new then pure "" else (do
      sys (os.create_dir_all storage.mount_point)
      sys (apply_mode storage.mount_point (get "mode" (parse_options storage.options)))
      pure "")

  module _ (recv : Recv) where
    -- `virtio_blk_storage_handler`
    unfoldable pub virtio_blk_storage_handler : Storage → Exec (Agent os.World) String
    unfolding common_storage_handler get_pci_device_name passes_as_block
    virtio_blk_storage_handler storage =
        if starts_with storage.source "/dev"
        then (do
          meta ← λ a. (os.metadata storage.source a.world, a)
          raise_if (not (passes_as_block meta.mode))
              (error_code ("Invalid device " ++ storage.source))
          common_storage_handler storage)
        else (do
          dev_path ← get_pci_device_name recv storage.source
          common_storage_handler (record storage { source = dev_path }))

    -- `virtio_scsi_storage_handler`
    unfoldable pub virtio_scsi_storage_handler : Storage → Exec (Agent os.World) String
    unfolding common_storage_handler get_scsi_device_name
    virtio_scsi_storage_handler storage = do
      dev_path ← get_scsi_device_name recv storage.source
      common_storage_handler (record storage { source = dev_path })

    -- the handler of each driver
    unfoldable pub handle : Driver → Storage → Exec (Agent os.World) String
    unfolding virtio_blk_storage_handler virtio_scsi_storage_handler ephemeral_storage_handler
        local_storage_handler common_storage_handler
    handle virtio_blk = virtio_blk_storage_handler
    handle virtio_scsi = virtio_scsi_storage_handler
    handle ephemeral = ephemeral_storage_handler
    handle local = local_storage_handler
    handle virtio_9p = common_storage_handler
    handle virtiofs = common_storage_handler
    handle virtiommio_blk = common_storage_handler

    -- `add_storages`: the mount points to undo later; an error keeps what was mounted before it
    unfoldable pub add_storages : List Storage → Exec (Agent os.World) (List String)
    unfolding driver_of handle
    add_storages [] = pure []
    add_storages (storage ∷ rest) = do
      driver ←
          or_raise (driver_of storage.driver)
            (error_code ("Failed to find the storage handler " ++ storage.driver))
      mount_point ← handle driver storage
      mount_list ← add_storages rest
      pure (listed mount_point mount_list)
