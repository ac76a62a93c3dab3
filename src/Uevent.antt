-- ===== src/Uevent.antt =====
-- Hotplug events of the kernel (src/uevent.rs): parsing one, and what the watching thread does with
-- it. The thread's loop, which receives the messages from a netlink socket, is not modelled.
pub mod Laws
use Prim.Native.String.{◌++◌}
use kata_rust_agent.Base.{
  ℕ, String, Bool, true, false, not, ◌&&◌, ◌||◌, Option, none, some, List, [], ◌∷◌, str_eq,
  starts_with, if◌then◌else◌,
}
use kata_rust_agent.Base.Dict.{Dict, put, remove}
use kata_rust_agent.Base.Text.{split, split_once, contains}
use kata_rust_agent.Base.Exec.{Outcome, ok, err, panic}
use kata_rust_agent.Os.{Os}
use kata_rust_agent.Sandbox.Agent.{Agent}
use kata_rust_agent.Device.Names.{online_device}

pub record Uevent : Type 0 where
  pub action : String
  pub devpath : String
  pub devname : String
  pub subsystem : String
  pub seqnum : String
  pub interface : String

abbrev pub no_event : Uevent
no_event = record {
  action = "";
  devpath = "";
  devname = "";
  subsystem = "";
  seqnum = "";
  interface = "";
}

-- the `match` of `parse_uevent` on one key
unfoldable pub set_field : String → String → Uevent → Uevent
set_field key value e =
    if str_eq key "ACTION"
    then record e { action = value }
    else if str_eq key "DEVNAME"
    then record e { devname = value }
    else if str_eq key "SUBSYSTEM"
    then record e { subsystem = value }
    else if str_eq key "DEVPATH"
    then record e { devpath = value }
    else if str_eq key "SEQNUM"
    then record e { seqnum = value }
    else if str_eq key "INTERFACE"
    then record e { interface = value }
    else e

unfoldable pub parse_args : List String → Uevent → Uevent
unfolding split_once set_field
parse_args [] e = e
parse_args (arg ∷ args) e =
    parse_args args (elim (split_once b'=' arg) [ none ↦ e | some (k, v) ↦ set_field k v e ])

abbrev pub tail : List String → List String
tail [] = []
tail (x ∷ xs) = xs

-- `parse_uevent`
unfoldable pub parse_uevent : String → Uevent
unfolding split parse_args
parse_uevent message = parse_args (tail (split 0 message)) no_event

-- `ROOT_BUS_PATH` of the architectures other than arm
abbrev pub root_bus_path : String
root_bus_path = "/devices/pci0000:00"

-- `s.ends_with(t)`
unfoldable pub ends_with : String → String → Bool
ends_with String.[] t = str_eq "" t
ends_with (String.◌∷◌ c s) t = let later = ends_with s t in str_eq (String.◌∷◌ c s) t || later

-- a block device whose node has been created below the root bus
unfoldable pub is_block : Uevent → Bool
is_block e =
    not (str_eq e.devname "") && starts_with e.devpath root_bus_path && str_eq e.subsystem "block"

-- the filter on the watched addresses
unfoldable pub is_for : Uevent → String → Bool
unfolding contains ends_with
is_for e addr =
    starts_with e.devpath (root_bus_path ++ "/" ++ addr)
    || ends_with addr "block" && contains e.devpath addr

-- `empties`: the addresses of the watchers that the event is for, and the channels they wait on
unfoldable pub watchers_for : Uevent → Dict ℕ → Dict ℕ
unfolding is_for
watchers_for e [] = []
watchers_for e ((addr, channel) ∷ m) =
    let rest = watchers_for e m in if is_for e addr then (addr, channel) ∷ rest else rest

unfoldable pub remove_all : Dict ℕ → Dict ℕ → Dict ℕ
unfolding remove
remove_all [] m = m
remove_all ((addr, channel) ∷ l) m = remove_all l (remove addr m)

module _ ⦃os : Os⦄ where
  -- the memory that an event adds is brought online; a failure is logged only
  unfoldable pub online_memory : Uevent → os.World → os.World
  unfolding online_device
  online_memory e w =
      let path = "/sys/" ++ e.devpath ++ "/online" in
      if starts_with path "/sys/devices/system/memory" then (online_device path w).1 else w

  -- the loop's body on an event: the watchers that are sent the device's name, and the state after it
  unfoldable pub handle_uevent : Uevent → Agent os.World → Dict ℕ × Agent os.World
  unfolding is_block watchers_for remove_all put online_memory
  handle_uevent e a =
      if is_block e
      then (
        watchers_for e a.watchers,
        record a {
          sandbox = record a.sandbox {
            pci_device_map = put e.devpath e.devname a.sandbox.pci_device_map;
          };
          watchers = remove_all (watchers_for e a.watchers) a.watchers;
        },
      )
      else ([], record a { world = online_memory e a.world })
