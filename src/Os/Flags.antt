-- ===== src/Os/Flags.antt =====
-- Flags of the crate `nix`: `MsFlags` of its module `mount` and `CloneFlags` of its module `sched`. A set
-- of flags is its membership test.
use Prim.Native.Nat.{ℕ}
use mathlib.Core.Bool.{Bool, false, ◌&&◌, ◌||◌, not}
use kata_rust_agent.Base.{◌==◌}

pub data Flag : Type 0 where
  rdonly nosuid nodev noexec synchronous dirsync remount mandlock noatime nodiratime : Flag
  bind rec unbindable private shared slave relatime strictatime move : Flag

abbrev pub index : Flag → ℕ
index rdonly = 0
index nosuid = 1
index nodev = 2
index noexec = 3
index synchronous = 4
index dirsync = 5
index remount = 6
index mandlock = 7
index noatime = 8
index nodiratime = 9
index bind = 10
index rec = 11
index unbindable = 12
index private = 13
index shared = 14
index slave = 15
index relatime = 16
index strictatime = 17
index move = 18

abbrev pub MsFlags : Type 0
MsFlags = Flag → Bool

-- `MsFlags::empty()`
abbrev pub no_flags : MsFlags
no_flags f = false

-- `MsFlags::MS_…`, the set of one flag.
abbrev pub single : Flag → MsFlags
single g f = index g == index f

-- `a | b`
abbrev pub union : MsFlags → MsFlags → MsFlags
union a b f = a f || b f

-- `a & !b`
abbrev pub without : MsFlags → MsFlags → MsFlags
without a b f = a f && not (b f)

-- `nix::sched::CloneFlags`, as far as the program names them
pub data CloneFlag : Type 0 where
  newuser newipc newpid newnet newns newuts newcgroup : CloneFlag

abbrev pub clone_index : CloneFlag → ℕ
clone_index newuser = 0
clone_index newipc = 1
clone_index newpid = 2
clone_index newnet = 3
clone_index newns = 4
clone_index newuts = 5
clone_index newcgroup = 6

-- a set of flags
abbrev pub CloneFlags : Type 0
CloneFlags = CloneFlag → Bool

-- `CloneFlags::empty()`
abbrev pub no_clone_flags : CloneFlags
no_clone_flags f = false

-- `flags.set(g, true)`
abbrev pub set_flag : CloneFlag → CloneFlags → CloneFlags
set_flag g flags f = flags f || (clone_index g == clone_index f)
