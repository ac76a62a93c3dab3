-- ===== src/Device/Update.antt =====
-- `update_spec_device_list` of src/device.rs, the part on the specification: the numbers of the
-- guest's device replace those that the host put there.
pub mod Laws
use kata_rust_agent.Base.{
  ℕ, String, Bool, ◌&&◌, Option, none, some, List, [], ◌∷◌, map, ℤ, pos, eq_ℤ, str_eq,
  if◌then◌else◌,
}
use kata_rust_agent.Oci.{LinuxDevice, Linux}
use kata_rust_agent.Oci.Resources.{LinuxDeviceCgroup, LinuxResources}

-- a device number
pub record Numbers : Type 0 where
  pub major : ℤ
  pub minor : ℤ

abbrev pub numbers : LinuxDevice → Numbers
numbers d = record { major = d.major; minor = d.minor }

-- `d.Major == host_major && d.Minor == host_minor`
abbrev pub has_numbers : Numbers → LinuxDeviceCgroup → Bool
has_numbers n d = eq_ℤ d.major n.major && eq_ℤ d.minor n.minor

-- the inner loop: the cgroup rules for the host's numbers get the guest's
unfoldable pub renumber : Numbers → Numbers → LinuxDeviceCgroup → LinuxDeviceCgroup
renumber host guest d =
    if has_numbers host d then record d { major = guest.major; minor = guest.minor } else d

unfoldable pub renumber_rules : Numbers → Numbers → List LinuxDeviceCgroup → List LinuxDeviceCgroup
unfolding renumber
renumber_rules host guest = map (renumber host guest)

-- the outer loop, on the devices left: the devices and the cgroup rules after it
unfoldable pub update_devices :
    String
    → Numbers
    → List LinuxDevice
    → List LinuxDeviceCgroup
    → List LinuxDevice × List LinuxDeviceCgroup
unfolding renumber_rules
update_devices container_path guest [] rules = ([], rules)
update_devices container_path guest (d ∷ ds) rules =
    let here = str_eq d.path container_path in
    let rest =
      update_devices container_path guest ds
        (if here then renumber_rules (numbers d) guest rules else rules) in
    ((if here then record d { major = guest.major; minor = guest.minor } else d) ∷ rest.0, rest.1)

abbrev pub rules_of : Option LinuxResources → List LinuxDeviceCgroup
rules_of none = []
rules_of (some r) = r.devices

abbrev pub with_rules : List LinuxDeviceCgroup → Option LinuxResources → Option LinuxResources
with_rules rules none = none
with_rules rules (some r) = some (record r { devices = rules })

unfoldable pub update_linux : String → Numbers → Linux → Linux
unfolding update_devices
update_linux container_path guest l =
    let (ds, rules) = update_devices container_path guest l.devices (rules_of l.resources) in
    record l { devices = ds; resources = with_rules rules l.resources }
