-- ===== src/Device/Update/Laws.antt =====
-- Which devices and which cgroup rules `update_spec_device_list` renumbers.
use mathlib.Core.Path.{ap₂}
use kata_rust_agent.Base.{
  String, ◌≡◌, ◌≢◌, refl, ap, sym, ◌∙◌, Bool, true, false, ◌&&◌, ◌||◌, Option, none, some, List, [],
  ◌∷◌, map, eq_ℤ_iff, str_eq, eq_iff, arith, if◌then◌else◌, Bool-cases, inl, inr,
}
use kata_rust_agent.Oci.{LinuxDevice, Linux}
use kata_rust_agent.Oci.Resources.{LinuxDeviceCgroup, LinuxResources}
use kata_rust_agent.Device.Update.{
  Numbers, numbers, has_numbers, renumber, renumber_rules, update_devices, rules_of, with_rules,
  update_linux,
}

abbrev pub set_numbers : Numbers → LinuxDeviceCgroup → LinuxDeviceCgroup
set_numbers g r = record r { major = g.major; minor = g.minor }

abbrev pub set_device : String → Numbers → LinuxDevice → LinuxDevice
set_device path g d =
    if str_eq d.path path then record d { major = g.major; minor = g.minor } else d

-- A rule for the host's numbers of one of the devices at the container path.
abbrev pub is_rule_of : String → List LinuxDevice → LinuxDeviceCgroup → Bool
is_rule_of path [] r = false
is_rule_of path (d ∷ ds) r =
    (str_eq d.path path && has_numbers (numbers d) r) || is_rule_of path ds r

abbrev pub set_rule : String → Numbers → List LinuxDevice → LinuxDeviceCgroup → LinuxDeviceCgroup
set_rule path g ds r = if is_rule_of path ds r then set_numbers g r else r

devices-update_devices :
    (path : String) (g : Numbers) (ds : List LinuxDevice) (rules : List LinuxDeviceCgroup)
    → (update_devices path g ds rules).0 ≡ map (set_device path g) ds
unfolding update_devices
devices-update_devices path g [] rules = refl
devices-update_devices path g (d ∷ ds) rules =
    ap (λ (l : List LinuxDevice). set_device path g d ∷ l)
      (devices-update_devices path g ds
        (if str_eq d.path path then renumber_rules (numbers d) g rules else rules))

set_rule-renumber :
    (path : String) (g : Numbers) (d : LinuxDevice) (ds : List LinuxDevice) (r : LinuxDeviceCgroup)
    → str_eq d.path path ≡ true
    → set_rule path g ds (renumber (numbers d) g r) ≡ set_rule path g (d ∷ ds) r
unfolding renumber
set_rule-renumber path g d ds r e = elim (Bool-cases (has_numbers (numbers d) r)) [
  | inl h ↦ rw (h, e) (ground arith)
  | inr h ↦ rw (h, e) refl
]

map-set_rule :
    (path : String) (g : Numbers) (d : LinuxDevice) (ds : List LinuxDevice)
    (rules : List LinuxDeviceCgroup)
    → str_eq d.path path ≡ true
    → map (set_rule path g ds) (renumber_rules (numbers d) g rules)
      ≡ map (set_rule path g (d ∷ ds)) rules
unfolding renumber_rules
map-set_rule path g d ds [] e = refl
map-set_rule path g d ds (r ∷ rules) e =
    ap₂ (λ (x : LinuxDeviceCgroup) (l : List LinuxDeviceCgroup). x ∷ l)
      (set_rule-renumber path g d ds r e) (map-set_rule path g d ds rules e)

map-set_rule_skip :
    (path : String) (g : Numbers) (d : LinuxDevice) (ds : List LinuxDevice)
    (rules : List LinuxDeviceCgroup)
    → str_eq d.path path ≡ false
    → map (set_rule path g ds) rules ≡ map (set_rule path g (d ∷ ds)) rules
map-set_rule_skip path g d ds [] e = refl
map-set_rule_skip path g d ds (r ∷ rules) e =
    ap₂ (λ (x : LinuxDeviceCgroup) (l : List LinuxDeviceCgroup). x ∷ l) (rw e refl)
      (map-set_rule_skip path g d ds rules e)

map-set_rule_nil :
    (path : String) (g : Numbers) (rules : List LinuxDeviceCgroup)
    → map (set_rule path g []) rules ≡ rules
map-set_rule_nil path g [] = refl
map-set_rule_nil path g (r ∷ rules) =
    ap (λ (l : List LinuxDeviceCgroup). r ∷ l) (map-set_rule_nil path g rules)

rules-update_devices :
    (path : String) (g : Numbers) (ds : List LinuxDevice) (rules : List LinuxDeviceCgroup)
    → (update_devices path g ds rules).1 ≡ map (set_rule path g ds) rules
unfolding update_devices
rules-update_devices path g [] rules = sym (map-set_rule_nil path g rules)
rules-update_devices path g (d ∷ ds) rules = elim (Bool-cases (str_eq d.path path)) [
  | inl e ↦ rw e (
      rules-update_devices path g ds (renumber_rules (numbers d) g rules)
      ∙ map-set_rule path g d ds rules e)
  | inr e ↦ rw e (rules-update_devices path g ds rules ∙ map-set_rule_skip path g d ds rules e)
]

rules_of-with_rules :
    (path : String) (g : Numbers) (ds : List LinuxDevice) (res : Option LinuxResources)
    → rules_of (with_rules (update_devices path g ds (rules_of res)).1 res)
      ≡ map (set_rule path g ds) (rules_of res)
rules_of-with_rules path g ds none = refl
rules_of-with_rules path g ds (some r) = rules-update_devices path g ds r.devices

-- Exactly the devices at the container path get the guest's numbers, and exactly the cgroup rules
-- that carry the host's numbers of such a device; all else stays, in its order. So a rule that two
-- devices at the path share, or that has the guest's numbers already, is renumbered once.
pub update_linux_lem :
    (path : String) (g : Numbers) (l : Linux)
    → ((update_linux path g l).devices ≡ map (set_device path g) l.devices)
      × (rules_of (update_linux path g l).resources
          ≡ map (set_rule path g l.devices) (rules_of l.resources))
unfolding update_linux
update_linux_lem path g l = (
  devices-update_devices path g l.devices (rules_of l.resources),
  rules_of-with_rules path g l.devices l.resources,
)

set_rule-captured :
    (q : String) (g₁ g₂ : Numbers) (a' b : LinuxDevice) (r : LinuxDeviceCgroup)
    → b.path ≡ q
    → numbers b ≡ g₁
    → set_rule q g₂ (a' ∷ b ∷ []) (set_numbers g₁ r) ≡ set_numbers g₂ r
set_rule-captured q g₁ g₂ a' b r at_q e =
    let major : b.major ≡ g₁.major = ap (λ (n : Numbers). n.major) e in
    let minor : b.minor ≡ g₁.minor = ap (λ (n : Numbers). n.minor) e in
    ground (arith, eq_iff b.path q, eq_ℤ_iff g₁.major b.major, eq_ℤ_iff g₁.minor b.minor)

set_rule-own :
    (p : String) (g₁ : Numbers) (a b : LinuxDevice) (r : LinuxDeviceCgroup)
    → a.path ≡ p
    → has_numbers (numbers a) r ≡ true
    → set_rule p g₁ (a ∷ b ∷ []) r ≡ set_numbers g₁ r
set_rule-own p g₁ a b r at_p own = ground (arith, eq_iff a.path p)

-- Two devices of a container at different paths, updated one after the other, where the numbers that
-- the guest gives the first are those that the host gave the second: the second update takes the
-- first device's rule with it, which ends with the numbers of the second device.
pub second_update_captures :
    (p q : String) (g₁ g₂ : Numbers) (l : Linux) (a b : LinuxDevice) (r : LinuxDeviceCgroup)
    → l.devices ≡ a ∷ b ∷ []
    → rules_of l.resources ≡ r ∷ []
    → a.path ≡ p
    → b.path ≡ q
    → p ≢ q
    → has_numbers (numbers a) r ≡ true
    → numbers b ≡ g₁
    → rules_of (update_linux q g₂ (update_linux p g₁ l)).resources ≡ set_numbers g₂ r ∷ []
second_update_captures p q g₁ g₂ l a b r ds rs at_p at_q apart own e =
    let first = update_linux_lem p g₁ l in
    let second = update_linux_lem q g₂ (update_linux p g₁ l) in
    let stays : set_device p g₁ b ≡ b = ground (arith, eq_iff b.path p) in
    second.1
    ∙ rw (first.0, first.1, ds, rs)
        (ap (λ (x : LinuxDeviceCgroup). x ∷ [])
          (rw (stays, set_rule-own p g₁ a b r at_p own)
            (set_rule-captured q g₁ g₂ (set_device p g₁ a) b r at_q e)))
