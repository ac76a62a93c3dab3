-- ===== src/Device/Handlers.antt =====
-- The device drivers and `add_devices` of src/device.rs. The specification is a local copy of the
-- request's, which is dropped on an error, so only a success returns it.
pub mod Laws
use Prim.Native.String.{◌++◌}
use kata_rust_agent.Base.{
  ℕ, String, Bool, true, not, ◌&&◌, Option, none, some, List, [], ◌∷◌, pos, str_eq, if◌then◌else◌,
}
use kata_rust_agent.Base.Dict.{Dict, get}
use kata_rust_agent.Base.Exec.{
  Exec, Outcome, ok, err, Error, error_code, msg, pure, raise, gets, or_raise, raise_if, ◌>>=◌,
  ◌>>◌,
}
use kata_rust_agent.Oci.{Linux, Spec}
use kata_rust_agent.Os.{Os}
use kata_rust_agent.Sandbox.Agent.{Agent, sys}
use kata_rust_agent.Device.Names.{Recv, get_pci_device_name, get_scsi_device_name}
use kata_rust_agent.Device.Update.{Numbers, update_linux}

-- `Device` of protocols/protos/agent.proto
pub record Device : Type 0 where
  pub id : String
  pub kind : String
  pub vm_path : String
  pub container_path : String
  pub options : List String

-- The drivers of `DEVICEHANDLERLIST`.
pub data Driver : Type 0 where
  virtio_blk virtiommio_blk virtio_nvdimm virtio_scsi : Driver

abbrev pub device_handler_list : Dict Driver
device_handler_list =
    ("blk", virtio_blk)
    ∷ ("mmioblk", virtiommio_blk)
    ∷ ("nvdimm", virtio_nvdimm)
    ∷ ("scsi", virtio_scsi)
    ∷ []

unfoldable pub driver_of : String → Option Driver
unfolding get
driver_of kind = get kind device_handler_list

module _ ⦃os : Os⦄ (show_device : Device → String) where
  -- `update_spec_device_list`; `show_device` is the derived `Debug` text
  unfoldable pub update_spec_device_list : Device → Spec → Exec (Agent os.World) Spec
  unfolding update_linux
  update_spec_device_list device spec = do
    raise_if (str_eq device.container_path "")
        (msg ("container_path  cannot empty for device " ++ show_device device))
    l ← or_raise spec.linux (error_code "Spec didn't container linux field")
    there ← gets (λ a. os.exists device.vm_path a.world)
    raise_if (not there) (msg ("vm_path:" ++ device.vm_path ++ " doesn't exist"))
    meta ← λ a. (os.metadata device.vm_path a.world, a)
    let guest : Numbers = record { major = pos meta.rdev_major; minor = pos meta.rdev_minor }
    pure (record spec { linux = some (update_linux device.container_path guest l) })

  module _ (recv : Recv) where
    -- the four handlers
    unfoldable pub handle : Driver → Device → Spec → Exec (Agent os.World) Spec
    unfolding update_spec_device_list get_pci_device_name get_scsi_device_name
    handle virtiommio_blk device spec = do
      raise_if (str_eq device.vm_path "") (msg "Invalid path for virtiommioblkdevice")
      update_spec_device_list device spec
    handle virtio_blk device spec = do
      dev_path ← get_pci_device_name recv device.id
      update_spec_device_list (record device { vm_path = dev_path }) spec
    handle virtio_scsi device spec = do
      dev_path ← get_scsi_device_name recv device.id
      update_spec_device_list (record device { vm_path = dev_path }) spec
    handle virtio_nvdimm device spec = update_spec_device_list device spec

    -- `add_device`
    unfoldable pub add_device : Device → Spec → Exec (Agent os.World) Spec
    unfolding driver_of handle
    add_device device spec = do
      raise_if (str_eq device.kind "") (msg ("invalid type for device " ++ show_device device))
      raise_if (str_eq device.id "" && str_eq device.vm_path "")
          (msg ("invalid ID and VM path for device " ++ show_device device))
      raise_if (str_eq device.container_path "")
          (msg ("invalid container path for device " ++ show_device device))
      driver ← or_raise (driver_of device.kind) (msg ("Unknown device type " ++ device.kind))
      handle driver device spec

    -- `add_devices`
    unfoldable pub add_devices : List Device → Spec → Exec (Agent os.World) Spec
    unfolding add_device
    add_devices [] spec = pure spec
    add_devices (d ∷ ds) spec = do spec' ← add_device d spec; add_devices ds spec'
