-- ===== src/Mount/Storage/Laws.antt =====
-- What the storage drivers do to the sandbox's counts and what `add_storages` returns.
use kata_rust_agent.Base.{
  ◌+◌, ◌≤◌, String, false, List, [], ◌∷◌, ◌≡◌, refl, arith, inl, inr, Bool-cases, str_eq, eq_refl,
  ◌⊎◌, ◌<◌, All,
}
use Prim.Native.String.{◌++◌}
use mathlib.Core.Path.{subst}
use kata_rust_agent.Base.Exec.{ok, pure, or_raise, error_code, ◌>>=◌}
use kata_rust_agent.Base.Exec.Laws.{bind_ok, value}
use kata_rust_agent.Os.{Os}
use kata_rust_agent.Sandbox.{u32_mod, set_sandbox_storage}
use kata_rust_agent.Sandbox.Agent.{Agent, on_sandbox}
use kata_rust_agent.Sandbox.Counts.{refs, IsCounted, set_lem}
use kata_rust_agent.Device.Names.{Recv}
use kata_rust_agent.Mount.Storage.{
  Storage, Driver, ephemeral, local, driver_of, listed, ephemeral_storage_handler,
  local_storage_handler, handle, add_storages,
}

listed-All :
    (m : String) (ms : List String)
    → All (λ x. str_eq x "" ≡ false) ms
    → All (λ x. str_eq x "" ≡ false) (listed m ms)
listed-All m ms h = elim (Bool-cases (str_eq m "")) [
  | inl blank ↦ rw blank h
  | inr full ↦ rw full (full, h)
]

module _ ⦃os : Os⦄ (recv : Recv) where
  -- The mount points that `add_storages` returns are those that a removal undoes; none is empty.
  pub add_storages-no_blank :
      (l : List Storage) (a a' : Agent os.World) (ms : List String)
      → add_storages recv l a ≡ (ok ms, a')
      → All (λ m. str_eq m "" ≡ false) ms
  unfolding add_storages
  add_storages-no_blank [] a a' ms e =
      subst (All (λ m. str_eq m "" ≡ false)) (value [] ms a a' e) tt
  add_storages-no_blank (s ∷ l) a a' ms e =
      let (d, a1, e1, e2) =
        bind_ok
          (or_raise (driver_of s.driver)
            (error_code ("Failed to find the storage handler " ++ s.driver)))
          (λ d. handle recv d s >>= λ m. add_storages recv l >>= λ rest. pure (listed m rest)) a ms
          a' e in
      let (m, a2, e3, e4) =
        bind_ok (handle recv d s) (λ m. add_storages recv l >>= λ rest. pure (listed m rest)) a1 ms
          a' e2 in
      let (rest, a3, e5, e6) =
        bind_ok (add_storages recv l) (λ rest. pure (listed m rest)) a2 ms a' e4 in
      subst (All (λ m. str_eq m "" ≡ false)) (value (listed m rest) ms a3 a' e6)
        (listed-All m rest (add_storages-no_blank l a2 a3 rest e5))

  -- A second user of an ephemeral or a local storage mounts nothing, does not touch the world and
  -- has no mount point to undo: the call only raises the count of the storage.
  pub handle-shared :
      (d : Driver) (s : Storage) (a : Agent os.World)
      → (d ≡ ephemeral) ⊎ (d ≡ local)
      → IsCounted a.sandbox
      → 1 ≤ refs a.sandbox s.mount_point
      → refs a.sandbox s.mount_point + 1 < u32_mod
      → let (r, a') = handle recv d s a in
        (r ≡ ok "")
        × (a'.world ≡ a.world)
        × (refs a'.sandbox s.mount_point ≡ refs a.sandbox s.mount_point + 1)
  unfolding handle on_sandbox
  handle-shared d s a is_shared h used room =
      let old : (set_sandbox_storage s.mount_point a.sandbox).0 ≡ false =
        ground (arith, set_lem a.sandbox s.mount_point s.mount_point h room) in
      let raised : refs (set_sandbox_storage s.mount_point a.sandbox).1 s.mount_point
          ≡ refs a.sandbox s.mount_point + 1 =
        ground
          (arith, set_lem a.sandbox s.mount_point s.mount_point h room, eq_refl s.mount_point) in
      elim is_shared [
        | inl e ↦ rw e (unfold ephemeral_storage_handler in rw old (refl, refl, raised))
        | inr e ↦ rw e (unfold local_storage_handler in rw old (refl, refl, raised))
      ]
