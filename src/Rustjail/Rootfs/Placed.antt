-- ===== src/Rustjail/Rootfs/Placed.antt =====
-- Where a mount or a device of a root file system goes (rustjail/src/mount.rs).
use kata_rust_agent.Base.{
  ℕ, ◌+◌, ◌%◌, String, Bool, true, false, Option, none, some, [], ◌≡◌, refl, ap, arith,
  if◌then◌else◌,
}
use Prim.Native.String.{◌++◌}
use kata_rust_agent.Base.Dict.{Dict, get}
use kata_rust_agent.Base.Exec.{
  Exec, Outcome, ok, err, panic, Error, error_code, msg, io, nix, parse_int, nul_byte, chain, pure,
  unwrap, or_raise, attempt, ◌>>=◌, ◌>>◌,
}
use kata_rust_agent.Base.Exec.Laws.{bind_ok, unwrap_then}
use kata_rust_agent.Oci.{Mount, LinuxDevice}
use kata_rust_agent.Os.{Os}
use kata_rust_agent.Os.Flags.{MsFlags, single, union, bind, remount, rdonly, noexec, nosuid, nodev}
use kata_rust_agent.Rustjail.Rootfs.{
  from_second, logged, or_log, prepare, needs_remount, mount_from,
}
use kata_rust_agent.Rustjail.Rootfs.Devices.{
  device_types, as_u64, makedev, bind_dev, mknod_dev, make_device,
}
use kata_rust_agent.Rustjail.Rootfs.Cgroups.{mount_groups, mount_cgroups}

module _ ⦃os : Os⦄ where
  fails :
      {e : Error} {x y : os.World} {u : Unit {0}}
      → Path (Outcome (Unit {0}) × os.World) (err e, x) (ok u, y)
      → ⊥
  fails h = ground (arith, ap (λ (z : Outcome (Unit {0}) × os.World). z.0) h)

  crashes :
      {x y : os.World} {u : Unit {0}}
      → Path (Outcome (Unit {0}) × os.World) (panic, x) (ok u, y)
      → ⊥
  crashes h = ground (arith, ap (λ (z : Outcome (Unit {0}) × os.World). z.0) h)

  logged_from :
      (x : Outcome (Unit {0}) × os.World) (w' : os.World)
      → (attempt (λ (s : os.World). x) >>= logged) x.1 ≡ (ok tt, w')
      → Path (Outcome (Unit {0}) × os.World) x (ok tt, x.1)
  logged_from (ok tt, t) w' h = refl
  logged_from (err (nix e), t) w' h = absurd (fails h)
  logged_from (err (error_code e), t) w' h = absurd (crashes h)
  logged_from (err (msg e), t) w' h = absurd (crashes h)
  logged_from (err (io e), t) w' h = absurd (crashes h)
  logged_from (err parse_int, t) w' h = absurd (crashes h)
  logged_from (err nul_byte, t) w' h = absurd (crashes h)
  logged_from (err (chain text e), t) w' h = absurd (crashes h)
  logged_from (panic, t) w' h = absurd (crashes h)

  -- something was mounted on this path
  abbrev pub IsTarget : String → Type 0
  IsTarget path =
      (source kind text : Option String) × (flags : MsFlags) × (w w' : os.World) × (os.nix_mount
          source path kind flags text w
        ≡ (ok tt, w'))

  pub mount_from-IsTarget :
      (m : Mount) (rootfs : String) (flags : MsFlags) (text : String) (w w' : os.World)
      → mount_from m rootfs flags text w ≡ (ok tt, w')
      → IsTarget (rootfs ++ m.destination)
  unfolding mount_from
  mount_from-IsTarget m rootfs flags text w w' h =
      let dest = rootfs ++ m.destination in
      let place : String → Exec os.World (Unit {0}) =
        λ src. os.nix_mount (some src) dest (some m.kind) flags (some text) in
      let again : Exec os.World (Unit {0}) =
        if needs_remount flags
        then or_log (os.nix_mount (some dest) dest none (union flags (single remount)) none)
        else pure tt in
      let (src, t, _, h1) =
        bind_ok (prepare m dest) (λ src. or_log (place src) >> again) w tt w' h in
      let (_, t1, mounted, _) = bind_ok (or_log (place src)) (λ _. again) t tt w' h1 in
      (
        some src,
        some m.kind,
        some text,
        flags,
        t,
        (place src t).1,
        logged_from (place src t) t1 mounted,
      )

  pub mount_cgroups-IsTarget :
      (m : Mount) (rootfs : String) (flags : MsFlags) (cpath mounts : Dict String) (w w' : os.World)
      → mount_cgroups m rootfs flags cpath mounts w ≡ (ok tt, w')
      → IsTarget (rootfs ++ m.destination)
  unfolding mount_cgroups
  mount_cgroups-IsTarget m rootfs flags cpath mounts w w' h =
      let base : Mount = record {
        destination = m.destination;
        source = "tmpfs";
        kind = "tmpfs";
        options = [];
      } in
      let plain : MsFlags = union (single noexec) (union (single nosuid) (single nodev)) in
      let dest = rootfs ++ m.destination in
      let last : Exec os.World (Unit {0}) =
        if flags rdonly
        then os.nix_mount (some dest) dest none (union flags (union (single bind) (single remount)))
            none
        else pure tt in
      let groups : String → Exec os.World (Unit {0}) =
        λ olddir. mount_groups m rootfs flags cpath mounts [] >> (os.chdir olddir >> last) in
      let rest : Exec os.World (Unit {0}) =
        os.getcwd >>= λ olddir. os.chdir rootfs >> groups olddir in
      let (_, t, mounted, _) = bind_ok (mount_from base rootfs plain "") (λ _. rest) w tt w' h in
      mount_from-IsTarget base rootfs plain "" w t mounted

  -- the device was made, or mounted, at its path without the first character
  abbrev pub IsDeviceAt : Bool → LinuxDevice → String → Type 0
  IsDeviceAt true d path =
      (w w' : os.World) × (os.nix_mount (some d.path) path none (single bind) none w ≡ (ok tt, w'))
  IsDeviceAt false d path =
      (mode number : ℕ) × (w w' : os.World) × (os.mknod path mode number w ≡ (ok tt, w'))

  pub make_device-IsDeviceAt :
      (by_bind : Bool) (d : LinuxDevice) (w w' : os.World)
      → make_device by_bind d w ≡ (ok tt, w')
      → (path : String) × (from_second d.path ≡ some path) × IsDeviceAt by_bind d path
  unfolding bind_dev mknod_dev
  make_device-IsDeviceAt true d w w' h =
      let place : String → Exec os.World (Unit {0}) =
        λ path. os.nix_mount (some d.path) path none (single bind) none in
      let rest : String → ℕ → Exec os.World (Unit {0}) = λ path fd. os.close fd >> place path in
      let (path, there, h1) =
        unwrap_then (from_second d.path) (λ path. os.open_rw path 0o644 >>= rest path) w tt w' h in
      let (fd, t, _, h2) = bind_ok (os.open_rw path 0o644) (rest path) w tt w' h1 in
      let (_, t1, _, h3) = bind_ok (os.close fd) (λ _. place path) t tt w' h2 in
      (path, there, (t1, w', h3))
  make_device-IsDeviceAt false d w w' h =
      let mode : ℕ → ℕ = λ kind. kind + d.file_mode % 0o10000 in
      let number = makedev (as_u64 d.major) (as_u64 d.minor) in
      let own : String → Exec os.World (Unit {0}) = λ path. os.chown path d.uid d.gid in
      let node : ℕ → String → Exec os.World (Unit {0}) =
        λ kind path. os.mknod path (mode kind) number >> own path in
      let (kind, t, _, h1) =
        bind_ok (or_raise (get d.kind device_types) (error_code "invalid spec"))
          (λ kind. unwrap (from_second d.path) >>= node kind) w tt w' h in
      let (path, there, h2) = unwrap_then (from_second d.path) (node kind) t tt w' h1 in
      let (_, t1, made, _) =
        bind_ok (os.mknod path (mode kind) number) (λ _. own path) t tt w' h2 in
      (path, there, (mode kind, number, t, t1, made))
