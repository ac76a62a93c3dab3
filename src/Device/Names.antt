-- ===== src/Device/Names.antt =====
-- Finding a device in the guest (src/device.rs): PCI addresses, SCSI scans, and the wait for a
-- hotplug event.
use Prim.Native.String.{◌++◌}
use kata_rust_agent.Base.{
  ℕ, ◌+◌, String, Option, none, some, List, [], ◌∷◌, length, str_eq, if◌then◌else◌,
}
use kata_rust_agent.Base.Dict.{Dict, put, remove}
use kata_rust_agent.Base.Text.{split, contains}
use kata_rust_agent.Base.Print.{show_ℕ}
use kata_rust_agent.Base.Exec.{
  Exec, Outcome, ok, err, panic, error_code, msg, pure, raise, gets, modify, for_each, ◌>>=◌, ◌>>◌,
}
use kata_rust_agent.Os.{Os}
use kata_rust_agent.Sandbox.Agent.{Agent, sys}

-- `format!("0000:00:{}.0", bridge_id)` and the path of the bus behind that bridge
abbrev pub bridge_address : String → String
bridge_address bridge = "0000:00:" ++ bridge ++ ".0"

abbrev pub bus_path : String → String
bus_path bridge = "/sys/bus/pci/devices/" ++ bridge_address bridge ++ "/pci_bus/"

-- the address below a bridge whose directory of buses has these entries
unfoldable pub address_on : String → String → List String → Outcome String
address_on bridge device (bus ∷ []) =
    ok (bridge_address bridge ++ "/" ++ bus ++ ":" ++ device ++ ".0")
address_on bridge device entries = err (
    error_code (
      "Expected an entry for bus in "
      ++ bus_path bridge
      ++ ", got "
      ++ show_ℕ (length entries)
      ++ " entries instead"))

-- the first device in the order of iteration whose path contains the address
unfoldable pub find_device : String → Dict String → Option String
unfolding contains
find_device addr [] = none
find_device addr ((path, name) ∷ m) =
    let later = find_device addr m in if contains path addr then some name else later

-- `dev_name` after the search: empty if there is no such device, or a nameless one
abbrev pub found_name : Option String → String
found_name none = ""
found_name (some name) = name

module _ ⦃os : Os⦄ where
  -- `online_device`
  unfoldable pub online_device : String → Exec os.World (Unit {0})
  online_device path = os.write path "1"

  -- `rescan_pci_bus`
  unfoldable pub rescan_pci_bus : Exec os.World (Unit {0})
  unfolding online_device
  rescan_pci_bus = online_device "/sys/bus/pci/rescan"

  -- `get_device_pci_address`; a bridge without a directory of buses is a panic
  unfoldable pub get_device_pci_address : String → os.World → Outcome String
  unfolding split address_on
  get_device_pci_address pci_id w = elim (split b'/' pci_id) [
    | bridge ∷ device ∷ [] ↦ elim (os.read_dir (bus_path bridge) w) [
      | ok entries ↦ address_on bridge device entries
      | _ ↦ panic
    ]
    | _ ↦ err (
        error_code
          ("PCI Identifier for device should be of format [bridgeAddr/deviceAddr], got " ++ pci_id))
  ]

  abbrev scan_host : String → String → Exec os.World (Unit {0})
  scan_host scan host = os.write ("/sys/class/scsi_host/" ++ host ++ "/scan") scan

  -- `scan_scsi_bus`
  unfoldable pub scan_scsi_bus : String → Exec os.World (Unit {0})
  unfolding split for_each
  scan_scsi_bus scsi_addr = elim (split b':' scsi_addr) [
    | id ∷ lun ∷ [] ↦ do
      hosts ← λ w. (os.read_dir "/sys/class/scsi_host" w, w)
      for_each hosts (scan_host ("0 " ++ id ++ " " ++ lun))
    | _ ↦ raise (msg ("Unexpected format for SCSI Address: " ++ scsi_addr ++ ", expect SCSIID:LUA"))
  ]

  -- What the wait on a channel gives before the timeout, and what the other threads do meanwhile.
  abbrev pub Recv : Type 0
  Recv = ℕ → Exec (Agent os.World) (Option String)

  -- a new channel in the watchers' map
  unfoldable pub watch : String → Exec (Agent os.World) ℕ
  watch addr a = (
    ok a.channels,
    record a { watchers = put addr a.channels a.watchers; channels = a.channels + 1 },
  )

  abbrev timeout_text : String → String
  timeout_text addr = "Timeout reached after 3 waiting for device " ++ addr

  -- `get_device_name`: a known device at once, else the name that a hotplug event brings in time
  unfoldable pub get_device_name : Recv → String → Exec (Agent os.World) String
  unfolding find_device watch
  get_device_name recv addr = do
    known ← gets (λ a. found_name (find_device addr a.sandbox.pci_device_map))
    if str_eq known ""
        then (do
          channel ← watch addr
          answer ← recv channel
          elim answer [
            | some name ↦ pure ("/dev/" ++ name)
            | none ↦ do
              modify (λ a. record a { watchers = remove addr a.watchers })
              raise (error_code (timeout_text addr))
          ])
        else pure ("/dev/" ++ known)

  -- `get_scsi_device_name`
  unfoldable pub get_scsi_device_name : Recv → String → Exec (Agent os.World) String
  unfolding scan_scsi_bus get_device_name sys
  get_scsi_device_name recv scsi_addr = do
    sys (scan_scsi_bus scsi_addr)
    get_device_name recv ("0:0:" ++ scsi_addr ++ "/block")

  -- `get_pci_device_name`
  unfoldable pub get_pci_device_name : Recv → String → Exec (Agent os.World) String
  unfolding get_device_pci_address rescan_pci_bus get_device_name sys
  get_pci_device_name recv pci_id = do
    addr ← λ a. (get_device_pci_address pci_id a.world, a)
    sys rescan_pci_bus
    get_device_name recv addr
