-- ===== src/Device/Keeps.antt =====
-- What the devices of a request keep of the sandbox (src/device.rs): all that the threads keep that run
-- while it waits.
use Prim.Native.String.{◌++◌}
use kata_rust_agent.Base.{
  ℕ, String, Bool, true, false, not, ◌&&◌, Option, none, some, List, [], ◌∷◌, str_eq, pos,
  if◌then◌else◌, Option-cases, inl, inr,
}
use kata_rust_agent.Base.Dict.{Dict, get, put, remove}
use kata_rust_agent.Base.Exec.{
  Exec, Error, error_code, msg, pure, raise, gets, or_raise, raise_if, modify, ◌>>=◌, ◌>>◌,
}
use kata_rust_agent.Base.Exec.Keeps.{Keeps, bind-Keeps, then-Keeps, or_raise-Keeps, raise_if-Keeps}
use kata_rust_agent.Oci.{Linux, Spec}
use kata_rust_agent.Os.{Os, Stat}
use kata_rust_agent.Device.Names.{
  Recv, found_name, find_device, get_device_pci_address, get_device_name, get_scsi_device_name,
  get_pci_device_name, rescan_pci_bus, scan_scsi_bus, watch,
}
use kata_rust_agent.Device.Handlers as D
use kata_rust_agent.Device.Handlers.{Device, update_spec_device_list, add_device, add_devices}
use kata_rust_agent.Device.Update.{Numbers, update_linux}
use kata_rust_agent.Sandbox.{Sandbox, inc32, set_sandbox_storage}
use kata_rust_agent.Sandbox.Agent.{Agent, sys, on_sandbox}

-- a property of the agent's sandbox
abbrev pub On : {W : Type 0} → (Sandbox → Type 0) → Agent W → Type 0
On P a = P a.sandbox

module _ {W A : Type 0} (P : Sandbox → Type 0) where
  pub sys-On : (m : Exec W A) → Keeps (On P) (sys m)
  unfolding sys
  sys-On m s h = h

-- a property that a new count of a storage keeps
pub set_storage-On :
    {W : Type 0} (P : Sandbox → Type 0)
    → ((m : Dict ℕ) (s : Sandbox) → P s → P (record s { storages = m }))
    → (path : String) → Keeps (On P) (on_sandbox {W = W} (set_sandbox_storage path))
unfolding on_sandbox set_sandbox_storage
set_storage-On P free path a h = elim (Option-cases (get path a.sandbox.storages)) [
  | inl gone ↦ rw (gone, set_sandbox_storage) (free (put path 1 a.sandbox.storages) a.sandbox h)
  | inr (n, there) ↦
      rw (there, set_sandbox_storage) (free (put path (inc32 n) a.sandbox.storages) a.sandbox h)
]

module _ ⦃os : Os⦄ (P : Sandbox → Type 0) where
  abbrev Step : Type 0 → Type 0
  Step A = Exec (Agent os.World) A

  update_spec-On :
      (show_device : Device → String) (d : Device) (spec : Spec)
      → Keeps (On P) (update_spec_device_list show_device d spec)
  unfolding update_spec_device_list
  update_spec-On show_device d spec =
      let empty : Error = msg ("container_path  cannot empty for device " ++ show_device d) in
      let absent : Error = msg ("vm_path:" ++ d.vm_path ++ " doesn't exist") in
      let finish : Linux → Stat → Step Spec = λ l meta.
        let guest : Numbers = record { major = pos meta.rdev_major; minor = pos meta.rdev_minor } in
        pure (record spec { linux = some (update_linux d.container_path guest l) }) in
      let stat : Step Stat = λ a. (os.metadata d.vm_path a.world, a) in
      let check : Linux → Bool → Step Spec =
        λ l there. raise_if (not there) absent >> (stat >>= finish l) in
      let look : Linux → Step Spec = λ l. gets (λ a. os.exists d.vm_path a.world) >>= check l in
      let none_found : Error = error_code "Spec didn't container linux field" in
      then-Keeps (On P) (raise_if (str_eq d.container_path "") empty)
        (or_raise spec.linux none_found >>= look)
        (raise_if-Keeps (On P) (str_eq d.container_path "") empty)
        (bind-Keeps (On P) (or_raise spec.linux none_found) look
          (or_raise-Keeps (On P) spec.linux none_found)
          (λ l.
            bind-Keeps (On P) (gets (λ a. os.exists d.vm_path a.world)) (check l) (λ a k. k)
              (λ there.
                then-Keeps (On P) (raise_if (not there) absent) (stat >>= finish l)
                  (raise_if-Keeps (On P) (not there) absent)
                  (bind-Keeps (On P) stat (finish l) (λ a k. k) (λ meta a k. k)))))

  -- the end of a wait on a channel
  abbrev named : String → String → Option String → Step String
  named addr text (some name) = pure ("/dev/" ++ name)
  named addr text none = do
    modify (λ a. record a { watchers = remove addr a.watchers })
    raise (error_code text)

  named-On : (addr text : String) (answer : Option String) → Keeps (On P) (named addr text answer)
  named-On addr text (some name) s h = h
  named-On addr text none s h = h

  watch-On : (addr : String) → Keeps (On P) (watch addr)
  unfolding watch
  watch-On addr s h = h

  module _ (recv : Recv) (fair : (n : ℕ) → Keeps (On P) (recv n)) where
    abbrev wait_for : String → String → Step String
    wait_for addr text = watch addr >>= λ channel. recv channel >>= named addr text

    wait-On : (addr text : String) → Keeps (On P) (wait_for addr text)
    wait-On addr text =
        bind-Keeps (On P) (watch addr) (λ channel. recv channel >>= named addr text) (watch-On addr)
          (λ channel.
            bind-Keeps (On P) (recv channel) (named addr text) (fair channel) (named-On addr text))

    known-On :
        (b : Bool) (waiting : Step String) (name : String)
        → Keeps (On P) waiting
        → Keeps (On P) (if b then waiting else pure name)
    known-On true waiting name hw s h = hw s h
    known-On false waiting name hw s h = h

    get_device_name-On : (addr : String) → Keeps (On P) (get_device_name recv addr)
    unfolding get_device_name
    get_device_name-On addr s h =
        let known = found_name (find_device addr s.sandbox.pci_device_map) in
        let text = "Timeout reached after 3 waiting for device " ++ addr in
        known-On (str_eq known "") (wait_for addr text) ("/dev/" ++ known) (wait-On addr text) s h

    pub get_scsi-On : (addr : String) → Keeps (On P) (get_scsi_device_name recv addr)
    unfolding get_scsi_device_name
    get_scsi-On addr =
        then-Keeps (On P) (sys (scan_scsi_bus addr))
          (get_device_name recv ("0:0:" ++ addr ++ "/block")) (sys-On P (scan_scsi_bus addr))
          (get_device_name-On ("0:0:" ++ addr ++ "/block"))

    pub get_pci-On : (id : String) → Keeps (On P) (get_pci_device_name recv id)
    unfolding get_pci_device_name
    get_pci-On id =
        let address : Step String = λ a. (get_device_pci_address id a.world, a) in
        let rest : String → Step String = λ addr. sys rescan_pci_bus >> get_device_name recv addr in
        bind-Keeps (On P) address rest (λ a k. k)
          (λ addr.
            then-Keeps (On P) (sys rescan_pci_bus) (get_device_name recv addr)
              (sys-On P rescan_pci_bus) (get_device_name-On addr))

    device-On :
        (show_device : Device → String) (driver : D.Driver) (d : Device) (spec : Spec)
        → Keeps (On P) (D.handle show_device recv driver d spec)
    unfolding D.handle
    device-On show_device D.virtiommio_blk d spec =
        let invalid : Error = msg "Invalid path for virtiommioblkdevice" in
        then-Keeps (On P) (raise_if (str_eq d.vm_path "") invalid)
          (update_spec_device_list show_device d spec)
          (raise_if-Keeps (On P) (str_eq d.vm_path "") invalid) (update_spec-On show_device d spec)
    device-On show_device D.virtio_blk d spec =
        let put_in : String → Step Spec =
          λ path. update_spec_device_list show_device (record d { vm_path = path }) spec in
        bind-Keeps (On P) (get_pci_device_name recv d.id) put_in (get_pci-On d.id)
          (λ path. update_spec-On show_device (record d { vm_path = path }) spec)
    device-On show_device D.virtio_scsi d spec =
        let put_in : String → Step Spec =
          λ path. update_spec_device_list show_device (record d { vm_path = path }) spec in
        bind-Keeps (On P) (get_scsi_device_name recv d.id) put_in (get_scsi-On d.id)
          (λ path. update_spec-On show_device (record d { vm_path = path }) spec)
    device-On show_device D.virtio_nvdimm d spec = update_spec-On show_device d spec

    add_device-On :
        (show_device : Device → String) (d : Device) (spec : Spec)
        → Keeps (On P) (add_device show_device recv d spec)
    unfolding add_device
    add_device-On show_device d spec =
        let e1 : Error = msg ("invalid type for device " ++ show_device d) in
        let e2 : Error = msg ("invalid ID and VM path for device " ++ show_device d) in
        let e3 : Error = msg ("invalid container path for device " ++ show_device d) in
        let e4 : Error = msg ("Unknown device type " ++ d.kind) in
        let act : D.Driver → Step Spec = λ driver. D.handle show_device recv driver d spec in
        let choose : Step Spec = or_raise (D.driver_of d.kind) e4 >>= act in
        let third : Step Spec = raise_if (str_eq d.container_path "") e3 >> choose in
        let second : Step Spec = raise_if (str_eq d.id "" && str_eq d.vm_path "") e2 >> third in
        then-Keeps (On P) (raise_if (str_eq d.kind "") e1) second
          (raise_if-Keeps (On P) (str_eq d.kind "") e1)
          (then-Keeps (On P) (raise_if (str_eq d.id "" && str_eq d.vm_path "") e2) third
            (raise_if-Keeps (On P) (str_eq d.id "" && str_eq d.vm_path "") e2)
            (then-Keeps (On P) (raise_if (str_eq d.container_path "") e3) choose
              (raise_if-Keeps (On P) (str_eq d.container_path "") e3)
              (bind-Keeps (On P) (or_raise (D.driver_of d.kind) e4) act
                (or_raise-Keeps (On P) (D.driver_of d.kind) e4)
                (λ driver. device-On show_device driver d spec))))

    pub add_devices-On :
        (show_device : Device → String) (l : List Device) (spec : Spec)
        → Keeps (On P) (add_devices show_device recv l spec)
    unfolding add_devices
    add_devices-On show_device [] spec s h = h
    add_devices-On show_device (d ∷ ds) spec s h =
        bind-Keeps (On P) (add_device show_device recv d spec) (add_devices show_device recv ds)
          (add_device-On show_device d spec) (add_devices-On show_device ds) s h
