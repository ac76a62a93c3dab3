-- ===== src/Rustjail/Rootfs/Setup/Laws.antt =====
-- What a root file system that was made has (`init_rootfs` and `finish_rootfs` of
-- rustjail/src/mount.rs).
use kata_rust_agent.Base.{String, Bool, true, not, some, List, [], ◌∷◌, ◌≡◌, arith, All}
use mathlib.Core.Path.{subst}
use Prim.Native.String.{◌++◌}
use kata_rust_agent.Base.Dict.{Dict}
use kata_rust_agent.Base.Exec.{Exec, ok, Error, nix, einval, raise_if, for_each, ◌>>◌}
use kata_rust_agent.Base.Exec.Laws.{Succeeds, bind_ok, raise_if-ok, for_each-Succeeds}
use kata_rust_agent.Oci.{Mount, Linux, LinuxDevice, Spec}
use kata_rust_agent.Os.{Os}
use kata_rust_agent.Rustjail.Rootfs.{is_plain, from_second, hide, protect, mask_path, readonly_path}
use kata_rust_agent.Rustjail.Rootfs.Devices.{is_device_path}
use kata_rust_agent.Rustjail.Rootfs.Placed.{IsTarget, IsDeviceAt}
use kata_rust_agent.Rustjail.Rootfs.Setup.{cover_paths, finish_dev, finish_root, finish_rootfs}

All-map : {A : Type 0} (P Q : A → Type 0) → ((a : A) → P a → Q a) → (l : List A) → All P l → All Q l
All-map P Q h [] all = tt
All-map P Q h (a ∷ l) (p, all) = (h a p, All-map P Q h l all)

module _ ⦃os : Os⦄ where
  guarded :
      (b : Bool) (e : Error) (rest : Exec os.World (Unit {0})) (w w' : os.World)
      → (raise_if (not b) e >> rest) w ≡ (ok tt, w')
      → b ≡ true
  guarded b e rest w w' h =
      let (u, t, passed, _) = bind_ok (raise_if (not b) e) (λ _. rest) w tt w' h in
      ground (arith, raise_if-ok (not b) e w t u passed)

  mask_path-ok : (path : String) → Succeeds mask_path path → is_plain path ≡ true
  unfolding mask_path
  mask_path-ok path (w, w', h) = guarded (is_plain path) (nix einval) (hide path) w w' h

  readonly_path-ok : (path : String) → Succeeds readonly_path path → is_plain path ≡ true
  unfolding readonly_path
  readonly_path-ok path (w, w', h) = guarded (is_plain path) (nix einval) (protect path) w w' h

  -- the mount of an entry below the root
  abbrev pub IsMounted : String → Mount → Type 0
  IsMounted rootfs m = (is_plain m.destination ≡ true) × IsTarget (rootfs ++ m.destination)

  abbrev pub IsMade : Bool → LinuxDevice → Type 0
  IsMade by_bind d =
      (is_device_path d.path ≡ true)
      × ((path : String) × (from_second d.path ≡ some path) × IsDeviceAt by_bind d path)

  cover_paths-ok :
      (linux : Linux) (w w' : os.World)
      → cover_paths (some linux) w ≡ (ok tt, w')
      → All (λ p. is_plain p ≡ true) linux.masked_paths
        × All (λ p. is_plain p ≡ true) linux.readonly_paths
  unfolding cover_paths
  cover_paths-ok linux w w' h =
      let (_, t, masked, protected) =
        bind_ok (for_each linux.masked_paths mask_path)
          (λ _. for_each linux.readonly_paths readonly_path) w tt w' h in
      (
        All-map (Succeeds mask_path) (λ p. is_plain p ≡ true) mask_path-ok linux.masked_paths
            (for_each-Succeeds mask_path linux.masked_paths w t masked),
        All-map (Succeeds readonly_path) (λ p. is_plain p ≡ true) readonly_path-ok
            linux.readonly_paths
            (for_each-Succeeds readonly_path linux.readonly_paths t w' protected),
      )

  -- Once a root file system is finished, every masked and every read-only path of the Linux part is
  -- absolute and without "..".
  pub finish_rootfs_safe :
      (spec : Spec) (linux : Linux) (w w' : os.World)
      → spec.linux ≡ some linux
      → finish_rootfs spec w ≡ (ok tt, w')
      → All (λ p. is_plain p ≡ true) linux.masked_paths
        × All (λ p. is_plain p ≡ true) linux.readonly_paths
  unfolding finish_rootfs
  finish_rootfs_safe spec linux w w' given h =
      let last : String → Exec os.World (Unit {0}) = λ olddir.
        for_each spec.mounts finish_dev >> finish_root spec.root spec.root_readonly olddir in
      let (olddir, t, _, h1) =
        bind_ok os.getcwd (λ olddir. os.chdir "/" >> (cover_paths spec.linux >> last olddir)) w tt
          w' h in
      let (_, t1, _, h2) =
        bind_ok (os.chdir "/") (λ _. cover_paths spec.linux >> last olddir) t tt w' h1 in
      let (_, t2, covered, _) = bind_ok (cover_paths spec.linux) (λ _. last olddir) t1 tt w' h2 in
      cover_paths-ok linux t1 t2 (subst (λ o. cover_paths o t1 ≡ (ok tt, t2)) given covered)
