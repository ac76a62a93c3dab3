-- ===== src/Rustjail/Cgroups/Devices.antt =====
-- The device rules that a container gets (`Devices` of rustjail/src/cgroups/fs/mod.rs), with the
-- defaults of rustjail/src/container.rs and of that file.
use Prim.Native.String.{◌++◌}
use kata_rust_agent.Base.{String, true, List, [], ◌∷◌, ℤ, pos, negsuc, eq_ℤ, str_eq, if◌then◌else◌}
use kata_rust_agent.Base.Print.{show_ℤ}
use kata_rust_agent.Base.Exec.{Exec, for_each, ◌>>◌}
use kata_rust_agent.Oci.Resources.{LinuxDeviceCgroup, LinuxResources}
use kata_rust_agent.Os.{Os}
use kata_rust_agent.Rustjail.Cgroups.{write_file}

abbrev pub wildcard : ℤ
wildcard = negsuc 0

abbrev pub show_number : ℤ → String
show_number n = if eq_ℤ n wildcard then "*" else show_ℤ n

-- the file and the text that `write_device` writes
unfoldable pub device_file : LinuxDeviceCgroup → String
device_file d = if d.allow then "devices.allow" else "devices.deny"

unfoldable pub device_text : LinuxDeviceCgroup → String
unfolding show_ℤ
device_text d =
    (if str_eq d.kind "" then "a" else d.kind)
    ++ " "
    ++ show_number d.major
    ++ ":"
    ++ show_number d.minor
    ++ " "
    ++ d.access

abbrev pub allow : String → ℤ → ℤ → String → LinuxDeviceCgroup
allow kind major minor access = record {
  allow = true;
  kind = kind;
  major = major;
  minor = minor;
  access = access;
}

-- the rules that `Devices::set` makes of `DEFAULT_DEVICES`
abbrev pub default_devices : List LinuxDeviceCgroup
default_devices =
    allow "c" (pos 1) (pos 3) "rwm"
    ∷ allow "c" (pos 1) (pos 5) "rwm"
    ∷ allow "c" (pos 1) (pos 7) "rwm"
    ∷ allow "c" (pos 5) (pos 0) "rwm"
    ∷ allow "c" (pos 1) (pos 9) "rwm"
    ∷ allow "c" (pos 1) (pos 8) "rwm"
    ∷ []

-- `DEFAULT_ALLOWED_DEVICES`
abbrev pub default_allowed_devices : List LinuxDeviceCgroup
default_allowed_devices =
    allow "c" wildcard wildcard "m"
    ∷ allow "b" wildcard wildcard "m"
    ∷ allow "c" (pos 5) (pos 1) "rwm"
    ∷ allow "c" (pos 136) wildcard "rwm"
    ∷ allow "c" (pos 5) (pos 2) "rwm"
    ∷ allow "c" (pos 10) (pos 200) "rwm"
    ∷ []

module _ ⦃os : Os⦄ (dir : String) where
  -- `write_device`
  unfoldable pub write_device : LinuxDeviceCgroup → Exec os.World (Unit {0})
  unfolding write_file device_file device_text
  write_device d = write_file dir (device_file d) (device_text d)

  -- `Devices::set`
  unfoldable pub set_devices : LinuxResources → Exec os.World (Unit {0})
  unfolding write_device for_each
  set_devices r = do
    for_each r.devices write_device
    for_each default_devices write_device
    for_each default_allowed_devices write_device
