-- ===== src/Rustjail/Identity.antt =====
-- What a container's process becomes before it runs its program: its ids, limits and kernel
-- parameters (`setid`, `setrlimit`, `setgroups` and `set_sysctls` of rustjail/src/container.rs).
use Prim.Native.Char.{code}
use Prim.Native.String.{◌++◌}
use kata_rust_agent.Base.{ℕ, String, true, false, not, [], ◌∷◌, ◌==◌, if◌then◌else◌}
use kata_rust_agent.Base.Dict.{Dict, get}
use kata_rust_agent.Base.Exec.{
  Exec, Outcome, ok, err, panic, msg, io, not_found, nix, einval, pure, raise, crash, or_raise,
  attempt, for_each, ◌>>=◌, ◌>>◌,
}
use kata_rust_agent.Oci.Process.{PosixRlimit}
use kata_rust_agent.Os.{Os}
use kata_rust_agent.Rustjail.Capabilities.{reset_effective}

-- `RLIMITMAPS`
abbrev pub rlimit_maps : Dict ℕ
rlimit_maps =
    ("RLIMIT_CPU", 0)
    ∷ ("RLIMIT_FSIZE", 1)
    ∷ ("RLIMIT_DATA", 2)
    ∷ ("RLIMIT_STACK", 3)
    ∷ ("RLIMIT_CORE", 4)
    ∷ ("RLIMIT_RSS", 5)
    ∷ ("RLIMIT_NPROC", 6)
    ∷ ("RLIMIT_NOFILE", 7)
    ∷ ("RLIMIT_MEMLOCK", 8)
    ∷ ("RLIMIT_AS", 9)
    ∷ ("RLIMIT_LOCKS", 10)
    ∷ ("RLIMIT_SIGPENDING", 11)
    ∷ ("RLIMIT_MSGQUEUE", 12)
    ∷ ("RLIMIT_NICE", 13)
    ∷ ("RLIMIT_RTPRIO", 14)
    ∷ ("RLIMIT_RTTIME", 15)
    ∷ []

-- `key.replace('.', "/")`
unfoldable pub slashes : String → String
slashes String.[] = ""
slashes (String.◌∷◌ c s) =
    let rest = slashes s in if code c == b'.' then String.◌∷◌ "/" rest else String.◌∷◌ c rest

module _ ⦃os : Os⦄ where
  -- `setrlimit`
  unfoldable pub setrlimit : PosixRlimit → Exec os.World (Unit {0})
  unfolding get
  setrlimit limit = do
    res ← or_raise (get limit.kind rlimit_maps) (nix einval)
    os.setrlimit res limit.soft limit.hard

  -- a failure of `prctl`, whose number the text leaves out
  abbrev pub or_bail : Exec os.World (Unit {0}) → Exec os.World (Unit {0})
  or_bail m = do
    r ← attempt m
    elim r [ ok _ ↦ pure tt | err e ↦ raise (msg "set keep capabilities returned") | panic ↦ crash ]

  -- `setid`
  unfoldable pub setid : ℕ → ℕ → Exec os.World (Unit {0})
  setid uid gid = do
    or_bail (os.set_keep_capabilities true)
    os.setresgid gid
    os.setresuid uid
    if not (uid == 0) then reset_effective else pure tt
    or_bail (os.set_keep_capabilities false)

  -- a kernel parameter that is not there is passed over
  abbrev pub write_sysctl : String → Outcome ℕ → Exec os.World (Unit {0})
  write_sysctl value (ok fd) = os.write_all fd value
  write_sysctl value (err (io not_found)) = pure tt
  write_sysctl value (err e) = raise e
  write_sysctl value panic = crash

  -- `set_sysctls`
  unfoldable pub set_sysctls : Dict String → Exec os.World (Unit {0})
  unfolding for_each slashes
  set_sysctls sysctls = for_each sysctls (λ (e : String × String). do
    r ← attempt (os.open_update ("/proc/sys/" ++ slashes e.0))
    write_sysctl e.1 r)
