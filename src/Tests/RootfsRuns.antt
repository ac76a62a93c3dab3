-- ===== src/Tests/RootfsRuns.antt =====
-- The root file system of a container with one mount, one device and two hidden paths; and a pipe
-- that gives one byte at a time.
use Prim.Native.String.{len}
use kata_rust_agent.Base.{
  ℕ, ◌<◌, String, true, false, List, [], ◌∷◌, map, ℤ, pos, ◌≡◌, ◌≢◌, refl, arith, All, Option, none,
  some,
}
use kata_rust_agent.Base.Dict.{Dict}
use kata_rust_agent.Base.Exec.{Exec, Outcome, ok}
use kata_rust_agent.Oci.{Linux, LinuxDevice, Mount, Spec}
use kata_rust_agent.Os.{Os}
use kata_rust_agent.Os.Flags.{Flag, rdonly}
use kata_rust_agent.Rustjail.Rootfs.{is_plain}
use kata_rust_agent.Rustjail.Rootfs.Options.{
  parse_mount, parse_mount_lem, decided, last_word, others, join,
}
use kata_rust_agent.Rustjail.Rootfs.Setup.{init_rootfs, finish_rootfs}
use kata_rust_agent.Rustjail.Rootfs.Setup.Laws.{finish_rootfs_safe}
use kata_rust_agent.Rustjail.Sync.{to_be_bytes, read_sync}
use kata_rust_agent.Rustjail.Sync.Laws.{ReadStep, got, read_sync-to_be_bytes, read_sync-IsEnded}
use kata_rust_agent.Tests.World.{toy, linux, spec, files}

abbrev mount_data : Mount
mount_data = record {
  destination = "/data";
  source = "data";
  kind = "tmpfs";
  options = "ro" ∷ "size=1m" ∷ "rw" ∷ [];
}

abbrev disk : LinuxDevice
disk = record {
  path = "/dev/sda";
  kind = "b";
  major = pos 8;
  minor = pos 0;
  file_mode = 0o660;
  uid = 0;
  gid = 0;
}

abbrev hidden : Linux
hidden = record linux {
  devices = disk ∷ [];
  masked_paths = "/proc/kcore" ∷ [];
  readonly_paths = "/proc/sys" ∷ [];
}

abbrev jail : Spec
jail = record spec { mounts = mount_data ∷ []; linux = some hidden }

parse_mount_lem_example :
    ((g : Flag) → (parse_mount mount_data).0 g ≡ decided (last_word g mount_data.options) false)
    × ((parse_mount mount_data).1 ≡ join (others mount_data.options))
parse_mount_lem_example = parse_mount_lem mount_data

-- the last of two contrary options counts
rw_after_ro : (parse_mount mount_data).0 rdonly ≡ false
unfolding parse_mount
rw_after_ro = refl

made : Dict String
made = (init_rootfs ⦃os = toy⦄ jail [] [] false files).1

finish_rootfs_safe_example :
    All (λ p. is_plain p ≡ true) ("/proc/kcore" ∷ [])
    × All (λ p. is_plain p ≡ true) ("/proc/sys" ∷ [])
unfolding finish_rootfs
finish_rootfs_safe_example =
    finish_rootfs_safe ⦃os = toy⦄ jail hidden files (finish_rootfs ⦃os = toy⦄ jail files).1 refl
      refl

abbrev read_one : Exec (Dict String) (List ℕ)
read_one [] = (ok [], [])
read_one (e ∷ w) = (ok (len e.0 ∷ []), w)

-- the pipe holds the lengths of the table's keys
abbrev pipe : Os
pipe = record toy { read_fd = λ fd n. read_one }

abbrev held : Dict String → List ℕ
held = map (λ (e : String × String). len e.0)

pipe_step :
    (n : ℕ) (w : Dict String)
    → 0 < n
    → held w ≢ []
    → ReadStep ⦃os = pipe⦄ held (λ w. 0) n w (read_one w)
pipe_step n [] h more = absurd (more refl)
pipe_step n (e ∷ w) h more =
    got (len e.0 ∷ []) w refl (omega arith) (omega (arith, h)) (omega arith)

abbrev sent : Dict String
sent = ("", "") ∷ ("", "") ∷ ("", "") ∷ ("ab", "") ∷ ("c", "") ∷ []

read_sync-to_be_bytes_example :
    (w' : Dict String) × (read_sync ⦃os = pipe⦄ 5 7 sent ≡ (ok (some (pos 2)), w'))
    × (held w' ≡ 1 ∷ [])
unfolding to_be_bytes
read_sync-to_be_bytes_example =
    read_sync-to_be_bytes ⦃os = pipe⦄ held (λ w. 0) 5 7 (pos 2) (1 ∷ []) sent pipe_step
      (omega arith) refl (omega arith)

read_sync-IsEnded_example :
    Path (Outcome (Option ℤ) × Dict String) (read_sync ⦃os = toy⦄ 1000 7 files) (ok none, files)
read_sync-IsEnded_example = read_sync-IsEnded ⦃os = toy⦄ 7 files (λ n. refl) 1000
