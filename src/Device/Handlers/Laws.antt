-- ===== src/Device/Handlers/Laws.antt =====
-- Which devices `add_device` refuses, and that a refusal changes nothing.
use kata_rust_agent.Base.{
  String, Bool, true, not, ◌&&◌, ◌||◌, ◌≡◌, refl, arith, inl, inr, Bool-cases, Option-cases, str_eq,
}
use Prim.Native.String.{◌++◌}
use kata_rust_agent.Base.Dict.{has}
use kata_rust_agent.Base.Exec.{err, msg}
use kata_rust_agent.Oci.{Spec}
use kata_rust_agent.Os.{Os}
use kata_rust_agent.Sandbox.Agent.{Agent}
use kata_rust_agent.Device.Names.{Recv}
use kata_rust_agent.Device.Handlers.{Device, device_handler_list, driver_of, add_device}

-- the device lacks a type, a place in the container or any name, or its type is unknown
abbrev pub is_refused : Device → Bool
is_refused d =
    str_eq d.kind ""
    || str_eq d.id "" && str_eq d.vm_path ""
    || str_eq d.container_path ""
    || not (has d.kind device_handler_list)

module _ ⦃os : Os⦄ (show_device : Device → String) (recv : Recv) (d : Device) (spec : Spec)
    (a : Agent os.World) where
  -- A device without a type, without both an id and a path in the guest, without a path in the
  -- container or of an unknown type is answered with an error; no driver runs, and neither the
  -- sandbox nor the world changes.
  pub add_device-refuses :
      is_refused d ≡ true → (e : String) × (add_device show_device recv d spec a ≡ (err (msg e), a))
  unfolding add_device driver_of has
  add_device-refuses = elim (Bool-cases (str_eq d.kind "")) [
    | inl e ↦ λ r. (("invalid type for device " ++ show_device d), rw e refl)
    | inr kind ↦ elim (Bool-cases (str_eq d.id "" && str_eq d.vm_path "")) [
      | inl e ↦ λ r. (("invalid ID and VM path for device " ++ show_device d), rw (kind, e) refl)
      | inr name ↦ elim (Bool-cases (str_eq d.container_path "")) [
        | inl e ↦
            λ r. (("invalid container path for device " ++ show_device d), rw (kind, name, e) refl)
        | inr path ↦ elim (Option-cases (driver_of d.kind)) [
          | inl e ↦ λ r. (("Unknown device type " ++ d.kind), rw (kind, name, path, e) refl)
          | inr (dr, e) ↦ λ r. absurd (ground (arith, kind, name, path, e))
        ]
      ]
    ]
  ]
