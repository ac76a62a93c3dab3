-- ===== src/Rustjail/Rootfs/Cgroups.antt =====
-- The cgroups that a container sees (`mount_cgroups` of rustjail/src/mount.rs).
use Prim.Native.Char.{code}
use Prim.Native.String.{◌++◌}
use kata_rust_agent.Base.{
  String, not, ◌==◌, Option, none, some, List, [], ◌∷◌, str_eq, any, if◌then◌else◌,
}
use kata_rust_agent.Base.Dict.{Dict, get}
use kata_rust_agent.Base.Exec.{Exec, pure, unwrap, ◌>>=◌, ◌>>◌}
use kata_rust_agent.Oci.{Mount}
use kata_rust_agent.Os.{Os}
use kata_rust_agent.Os.Flags.{
  MsFlags, single, union, rdonly, nosuid, nodev, noexec, remount, bind, rec,
}
use kata_rust_agent.Rustjail.Rootfs.{from_second, mount_from}

-- the text after the last slash, and all of a text without one
unfoldable pub after_slash : String → Option String
after_slash String.[] = none
after_slash (String.◌∷◌ c s) =
    let rest = after_slash s in
    elim rest [ none ↦ if code c == b'/' then some s else none | some t ↦ some t ]

abbrev pub base_of : String → String
base_of path = elim (after_slash path) [ none ↦ path | some t ↦ t ]

module _ ⦃os : Os⦄ where
  -- `if key != base { symlink(destination, &src[1..])?; }`
  unfoldable pub link_alias : Mount → String → String → Exec os.World (Unit {0})
  link_alias m key base =
      if not (str_eq key base)
      then (do
        path ← unwrap (from_second (m.destination ++ "/" ++ key))
        os.symlink (m.destination ++ "/" ++ base) path)
      else pure tt

  -- the loop over the mounted subsystems, with the sources that are mounted already
  unfoldable pub mount_groups :
      Mount → String → MsFlags → Dict String → Dict String → List String → Exec os.World (Unit {0})
  unfolding get after_slash mount_from link_alias
  mount_groups m rootfs flags cpath [] srcs = pure tt
  mount_groups m rootfs flags cpath ((key, point) ∷ mounts) srcs = elim (get key cpath) [
    | none ↦ mount_groups m rootfs flags cpath mounts srcs
    | some source ↦
        if any (str_eq source) srcs
        then (do link_alias m key (base_of point); mount_groups m rootfs flags cpath mounts srcs)
        else (do
          mount_from
              (record {
                destination = m.destination ++ "/" ++ base_of point;
                source = source;
                kind = "bind";
                options = [];
              })
              rootfs (union flags (union (single rec) (single bind))) ""
          link_alias m key (base_of point)
          mount_groups m rootfs flags cpath mounts (source ∷ srcs))
  ]

  -- `mount_cgroups`
  unfoldable pub mount_cgroups :
      Mount → String → MsFlags → Dict String → Dict String → Exec os.World (Unit {0})
  unfolding mount_from mount_groups
  mount_cgroups m rootfs flags cpath mounts = do
    mount_from
        (record { destination = m.destination; source = "tmpfs"; kind = "tmpfs"; options = [] })
        rootfs (union (single noexec) (union (single nosuid) (single nodev))) ""
    olddir ← os.getcwd
    os.chdir rootfs
    mount_groups m rootfs flags cpath mounts []
    os.chdir olddir
    let dest = rootfs ++ m.destination
    if flags rdonly
        then os.nix_mount (some dest) dest none (union flags (union (single bind) (single remount)))
            none
        else pure tt
