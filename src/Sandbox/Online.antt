-- ===== src/Sandbox/Online.antt =====
-- Bringing hot-plugged processors and memory online (`online_resources` and its callers of
-- src/sandbox.rs). Whether a name matches a regular expression is a parameter.
pub mod Laws
use Prim.Native.String.{◌++◌}
use kata_rust_agent.Base.{
  ℕ, zero, suc, ◌+◌, ◌-◌, String, Bool, true, false, not, ◌&&◌, Option, none, some, List, [], ◌∷◌,
  ltb, ◌==◌, ℤ, pos, negsuc, if◌then◌else◌,
}
use kata_rust_agent.Base.Text.{trim, contains}
use kata_rust_agent.Base.Exec.{Exec, pure, gets, unwrap, for_each, ◌>>=◌, ◌>>◌}
use kata_rust_agent.Os.{Os}
use kata_rust_agent.Rustjail.Container.{LinuxContainer}
use kata_rust_agent.Rustjail.Cgroups.Manager.{update_cpuset_path}
use kata_rust_agent.Rustjail.Cgroups.Totals.{get_guest_cpuset}
use kata_rust_agent.Sandbox.{Sandbox}

-- `num > 0 && count == num`
abbrev pub is_enough : ℤ → ℕ → Bool
is_enough (pos num) count = ltb 0 num && (count == num)
is_enough (negsuc n) count = false

-- the value of `online_resources` at its end
abbrev pub counted : ℤ → ℕ → ℕ
counted (pos num) count = if ltb 0 num then count else 0
counted (negsuc n) count = 0

-- `OnlineCPUMemRequest`
pub record OnlineCpuMemRequest : Type 0 where
  pub nb_cpus : ℕ
  pub cpu_only : Bool

-- `u32 as i32`
abbrev pub as_i32 : ℕ → ℤ
as_i32 n = if ltb n 2147483648 then pos n else negsuc (4294967295 - n)

module _ ⦃os : Os⦄ (is_match : String → String → Bool) where
  -- the loop of `online_resources` over a directory's entries: each that matches and is offline is
  -- turned on, until there are enough
  unfoldable pub online_entries : String → String → ℤ → List String → ℕ → Exec os.World ℕ
  unfolding trim contains
  online_entries path pattern num [] count = pure count
  online_entries path pattern num (name ∷ names) count =
      let file = path ++ "/" ++ name ++ "/" ++ "online" in
      let next = λ (n : ℕ). online_entries path pattern num names n in
      let stop_or_next : ℕ → Exec os.World ℕ = λ n. if is_enough num n then pure n else next n in
      if is_match pattern name
      then (do
        c ← (λ w. (os.read_to_string file w, w))
        if contains (trim c) "0"
            then (do os.write file "1"; stop_or_next (count + 1))
            else next count)
      else next count

  -- `online_resources`
  unfoldable pub online_resources : String → String → ℤ → Exec os.World ℕ
  unfolding online_entries
  online_resources path pattern num = do
    names ← (λ w. (os.read_dir path w, w))
    count ← online_entries path pattern num names 0
    pure (counted num count)

  -- `online_cpus`, `online_memory`
  unfoldable pub online_cpus : ℤ → Exec os.World ℕ
  unfolding online_resources
  online_cpus num = online_resources "/sys/devices/system/cpu" "cpu[0-9]+" num

  unfoldable pub online_memory : Exec os.World (Unit {0})
  unfolding online_resources
  online_memory = do
    online_resources "/sys/devices/system/memory" "memory[0-9]+" (negsuc 0)
    pure tt

  abbrev pub update_cpuset : String → String × LinuxContainer → Exec os.World (Unit {0})
  update_cpuset cpuset e = do m ← unwrap e.1.cgroup_manager; update_cpuset_path m cpuset

  -- `Sandbox::online_cpu_memory`
  unfoldable pub online_cpu_memory : Sandbox → OnlineCpuMemRequest → Exec os.World (Unit {0})
  unfolding online_cpus online_memory get_guest_cpuset for_each update_cpuset_path
  online_cpu_memory s req = do
    if ltb 0 req.nb_cpus then (do online_cpus (as_i32 req.nb_cpus); pure tt) else pure tt
    if not req.cpu_only then online_memory else pure tt
    cpuset ← get_guest_cpuset
    for_each s.containers (update_cpuset cpuset)
