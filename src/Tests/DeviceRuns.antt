-- ===== src/Tests/DeviceRuns.antt =====
-- Device numbers that are replaced.
use kata_rust_agent.Base.{eq_iff, ℕ, pos, String, true, none, some, [], ◌∷◌, ◌≡◌, arith, map}
use kata_rust_agent.Oci.{LinuxDevice, Linux}
use kata_rust_agent.Oci.Resources.{LinuxDeviceCgroup, LinuxResources}
use kata_rust_agent.Device.Update.{Numbers, rules_of, update_linux}
use kata_rust_agent.Device.Update.Laws.{set_device, set_rule, update_linux_lem}
use kata_rust_agent.Tests.World.{linux}

abbrev block : String → ℕ → LinuxDevice
block path major = record {
  path = path;
  kind = "b";
  major = pos major;
  minor = pos 0;
  file_mode = 0;
  uid = 0;
  gid = 0;
}

abbrev rule : LinuxDeviceCgroup
rule = record { allow = true; kind = "b"; major = pos 8; minor = pos 0; access = "rw" }

abbrev resources : LinuxResources
resources = record {
  devices = rule ∷ [];
  memory = none;
  cpu = none;
  pids = none;
  block_io = none;
  hugepage_limits = [];
  network = none;
}

abbrev two_devices : Linux
two_devices = record linux {
  devices = block "/dev/a" 8 ∷ block "/dev/b" 253 ∷ [];
  resources = some resources;
}

abbrev first_guest : Numbers
first_guest = record { major = pos 253; minor = pos 0 }

abbrev second_guest : Numbers
second_guest = record { major = pos 254; minor = pos 0 }

update_linux_lem_example :
    ((update_linux "/dev/a" first_guest two_devices).devices
      ≡ map (set_device "/dev/a" first_guest) two_devices.devices)
    × (rules_of (update_linux "/dev/a" first_guest two_devices).resources
        ≡ map (set_rule "/dev/a" first_guest two_devices.devices) (rules_of two_devices.resources))
update_linux_lem_example = update_linux_lem "/dev/a" first_guest two_devices

apart : Path String "/dev/a" "/dev/b" → ⊥
apart e = ground (arith, (eq_iff "/dev/a" "/dev/b").1 e)
