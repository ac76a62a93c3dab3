-- ===== src/Rustjail/Capabilities.antt =====
-- The capabilities of a container (rustjail/src/capabilities.rs). A capability is its number in the
-- kernel, as in the enumeration of the crate `caps`; its `CapsHashSet` is a membership test.
pub mod Laws
use kata_rust_agent.Base.{
  ℕ, String, Bool, false, ◌==◌, ◌||◌, Option, none, some, List, [], ◌∷◌, any, if◌then◌else◌,
}
use kata_rust_agent.Base.Dict.{Dict, get}
use kata_rust_agent.Base.Exec.{Exec, ok, err, panic, pure, attempt, for_each, ◌>>=◌, ◌>>◌}
use kata_rust_agent.Oci.Process.{LinuxCapabilities}
use kata_rust_agent.Os.{Os, effective, permitted, inheritable, ambient}

abbrev pub audit_control : ℕ
audit_control = 30

-- `CAPSMAP`
abbrev pub caps_map : Dict ℕ
caps_map =
    ("CAP_CHOWN", 0)
    ∷ ("CAP_DAC_OVERRIDE", 1)
    ∷ ("CAP_DAC_READ_SEARCH", 2)
    ∷ ("CAP_FOWNER", 3)
    ∷ ("CAP_FSETID", 4)
    ∷ ("CAP_KILL", 5)
    ∷ ("CAP_SETGID", 6)
    ∷ ("CAP_SETUID", 7)
    ∷ ("CAP_SETPCAP", 8)
    ∷ ("CAP_LINUX_IMMUTABLE", 9)
    ∷ ("CAP_NET_BIND_SERVICE", 10)
    ∷ ("CAP_NET_BROADCAST", 11)
    ∷ ("CAP_NET_ADMIN", 12)
    ∷ ("CAP_NET_RAW", 13)
    ∷ ("CAP_IPC_LOCK", 14)
    ∷ ("CAP_IPC_OWNER", 15)
    ∷ ("CAP_SYS_MODULE", 16)
    ∷ ("CAP_SYS_RAWIO", 17)
    ∷ ("CAP_SYS_CHROOT", 18)
    ∷ ("CAP_SYS_PTRACE", 19)
    ∷ ("CAP_SYS_PACCT", 20)
    ∷ ("CAP_SYS_ADMIN", 21)
    ∷ ("CAP_SYS_BOOT", 22)
    ∷ ("CAP_SYS_NICE", 23)
    ∷ ("CAP_SYS_RESOURCE", 24)
    ∷ ("CAP_SYS_TIME", 25)
    ∷ ("CAP_SYS_TTY_CONFIG", 26)
    ∷ ("CAP_MKNOD", 27)
    ∷ ("CAP_LEASE", 28)
    ∷ ("CAP_AUDIT_WRITE", 29)
    ∷ ("CAP_AUDIT_CONTROL", 29)
    ∷ ("CAP_SETFCAP", 31)
    ∷ ("CAP_MAC_OVERRIDE", 32)
    ∷ ("CAP_SYSLOG", 34)
    ∷ ("CAP_WAKE_ALARM", 35)
    ∷ ("CAP_BLOCK_SUSPEND", 36)
    ∷ ("CAP_AUDIT_READ", 37)
    ∷ []

abbrev pub is_cap : ℕ → Option ℕ → Bool
is_cap c none = false
is_cap c (some d) = d == c

-- `to_capshashset`: a name that is not in the table is passed over
unfoldable pub to_capshashset : List String → ℕ → Bool
unfolding get
to_capshashset [] c = false
to_capshashset (name ∷ names) c =
    let rest = to_capshashset names c in is_cap c (get name caps_map) || rest

abbrev dropped : List ℕ → (ℕ → Bool) → List ℕ
dropped [] kept = []
dropped (c ∷ cs) kept = let rest = dropped cs kept in if kept c then rest else c ∷ rest

module _ ⦃os : Os⦄ where
  -- `reset_effective`
  abbrev pub reset_effective : Exec os.World (Unit {0})
  reset_effective = os.caps_set effective (λ c. any (λ d. d == c) os.caps_all)

  -- `drop_priviledges`; a failure to set the ambient capabilities is logged only
  unfoldable pub drop_priviledges : LinuxCapabilities → Exec os.World (Unit {0})
  unfolding for_each to_capshashset
  drop_priviledges caps = do
    for_each (dropped os.caps_all (to_capshashset caps.bounding)) os.caps_drop_bounding
    os.caps_set effective (to_capshashset caps.effective)
    os.caps_set permitted (to_capshashset caps.permitted)
    os.caps_set inheritable (to_capshashset caps.inheritable)
    attempt (os.caps_set ambient (to_capshashset caps.ambient))
    pure tt
