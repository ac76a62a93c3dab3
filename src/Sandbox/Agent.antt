-- ===== src/Sandbox/Agent.antt =====
-- The state that a request handler runs on, the sandbox and the world, and the methods of
-- src/sandbox.rs that call the operating system.
use kata_rust_agent.Base.{ℕ, String, List, [], ◌∷◌, if◌then◌else◌}
use kata_rust_agent.Base.Dict.{Dict, put}
use kata_rust_agent.Base.Exec.{Exec, ok, pure, gets, for_each, ◌>>=◌, ◌>>◌}
use kata_rust_agent.Os.{Os}
use kata_rust_agent.Rustjail.Container.{LinuxContainer}
use kata_rust_agent.Rustjail.Lifecycle.{Ctr}
use kata_rust_agent.Rustjail.Lifecycle as Container
use kata_rust_agent.Sandbox.{Sandbox, unset_sandbox_storage}

-- `watchers` is `GLOBAL_DEVICE_WATCHER`, from a device address to the number of the channel that a
-- handler waits on; `channels` have been made so far.
pub record Agent (W : Type 0) : Type 0 where
  pub sandbox : Sandbox
  pub watchers : Dict ℕ
  pub channels : ℕ
  pub world : W

module _ {W A : Type 0} where
  -- A call of the operating system.
  unfoldable pub sys : Exec W A → Exec (Agent W) A
  sys m s = let (r, w) = m s.world in (r, record s { world = w })

  -- A method that changes the sandbox alone.
  unfoldable pub on_sandbox : (Sandbox → A × Sandbox) → Exec (Agent W) A
  on_sandbox f s = let (a, sb) = f s.sandbox in (ok a, record s { sandbox = sb })

  -- A method of the container `c` that the sandbox holds as `id`: what it does to the container is
  -- done to the sandbox's.
  unfoldable pub on_container : String → LinuxContainer → Exec (Ctr W) A → Exec (Agent W) A
  on_container id c m s =
      let (r, t) = m (record { ctr = c; world = s.world }) in
      (
        r,
        record s {
          sandbox = record s.sandbox { containers = put id t.ctr s.sandbox.containers };
          world = t.world;
        },
      )

module _ ⦃os : Os⦄ where
  -- `remove_mounts` of src/mount.rs
  unfoldable pub remove_mounts : List String → Exec os.World (Unit {0})
  unfolding for_each
  remove_mounts mounts = for_each mounts os.umount

  -- `Sandbox::remove_sandbox_storage`
  unfoldable pub remove_sandbox_storage : String → Exec os.World (Unit {0})
  unfolding remove_mounts
  remove_sandbox_storage path = do remove_mounts (path ∷ []); os.remove_dir_all path

  -- `Sandbox::unset_and_remove_sandbox_storage`
  unfoldable pub unset_and_remove_sandbox_storage : String → Exec (Agent os.World) (Unit {0})
  unfolding sys on_sandbox remove_sandbox_storage
  unset_and_remove_sandbox_storage path = do
    unset ← on_sandbox (unset_sandbox_storage path)
    if unset then sys (remove_sandbox_storage path) else pure tt

  unfoldable pub destroy_each : List (String × LinuxContainer) → Exec (Agent os.World) (Unit {0})
  unfolding on_container
  destroy_each l =
      for_each l (λ (e : String × LinuxContainer). on_container e.0 e.1 Container.destroy)

  -- `Sandbox::destroy`
  unfoldable pub destroy_all : Exec (Agent os.World) (Unit {0})
  unfolding destroy_each for_each
  destroy_all = do cs ← gets (λ s. s.sandbox.containers); destroy_each cs
