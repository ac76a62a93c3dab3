-- ===== src/Sandbox/Release.antt =====
-- What `unset_and_remove_sandbox_storage` does to a storage with several users.
use kata_rust_agent.Base.{◌-◌, ◌≤◌, String, ◌≡◌, refl, true, eq_iff, arith, Option-cases, inl, inr}
use kata_rust_agent.Base.Dict.{get}
use kata_rust_agent.Base.Exec.{ok}
use kata_rust_agent.Os.{Os}
use kata_rust_agent.Sandbox.{unset_sandbox_storage}
use kata_rust_agent.Sandbox.Agent.{Agent, remove_sandbox_storage, unset_and_remove_sandbox_storage}
use kata_rust_agent.Sandbox.Counts.{refs, IsCounted, unset_lem}

module _ ⦃os : Os⦄ (p : String) (a : Agent os.World) (h : IsCounted a.sandbox) where
  -- A storage that is not counted is left alone: nothing is called and nothing changes.
  pub unset_and_remove-absent :
      refs a.sandbox p ≡ 0 → unset_and_remove_sandbox_storage p a ≡ (ok tt, a)
  unfolding unset_and_remove_sandbox_storage unset_sandbox_storage
  unset_and_remove-absent e = elim (Option-cases (get p a.sandbox.storages)) [
    | inl gone ↦ ground (arith, gone)
    | inr (n, there) ↦ absurd (ground (arith, there, h.at_path p n there))
  ]

  -- A storage that is still counted for another user after the call is nevertheless unmounted and
  -- its directory removed: outcome and world are those of `remove_sandbox_storage`.
  pub unset_and_remove_in_use :
      2 ≤ refs a.sandbox p
      → let (r, a') = unset_and_remove_sandbox_storage p a in
        ((r, a'.world) ≡ remove_sandbox_storage p a.world)
        × (refs a'.sandbox p ≡ refs a.sandbox p - 1)
        × (1 ≤ refs a'.sandbox p)
  unfolding unset_and_remove_sandbox_storage
  unset_and_remove_in_use two =
      let unset : (unset_sandbox_storage p a.sandbox).0 ≡ true =
        ground (arith, unset_lem a.sandbox p p h) in
      rw unset (
        refl,
        ground (arith, unset_lem a.sandbox p p h, eq_iff p p),
        ground (arith, unset_lem a.sandbox p p h, eq_iff p p),
      )
