-- ===== src/Rustjail/Sync.antt =====
-- The process ids that parent and child send each other while a container starts (`read_sync` and
-- `write_sync` of rustjail/src/container.rs): four bytes through a pipe. The loops run until all four
-- are through; a loop that is out of fuel answers `none`, and is still going.
pub mod Laws
use kata_rust_agent.Base.{
  ℕ, zero, suc, ◌+◌, ◌-◌, ◌*◌, ◌/◌, ◌%◌, ◌^◌, Option, none, some, List, [], ◌∷◌, ◌++◌, ltb, ◌==◌, ℤ,
  pos, negsuc, length, if◌then◌else◌,
}
use kata_rust_agent.Base.Exec.{
  Exec, Outcome, ok, err, panic, nix, eintr, pure, raise, crash, attempt, ◌>>=◌, ◌>>◌,
}
use kata_rust_agent.Os.{Os}

-- `PIDSIZE`
abbrev pub pidsize : ℕ
pidsize = 4

-- `pid as u32`, in two's complement
abbrev pub unsigned : ℤ → ℕ
unsigned (pos n) = n
unsigned (negsuc n) = 2 ^ 32 - (n + 1)

abbrev pub signed : ℕ → ℤ
signed n = if ltb n (2 ^ 31) then pos n else negsuc (2 ^ 32 - 1 - n)

-- `pid.to_be_bytes()`
unfoldable pub to_be_bytes : ℤ → List ℕ
to_be_bytes pid =
    let u = unsigned pid in u / 2 ^ 24 % 256 ∷ u / 2 ^ 16 % 256 ∷ u / 2 ^ 8 % 256 ∷ u % 256 ∷ []

-- `pid_t::from_be_bytes(v)`
unfoldable pub from_be_bytes : List ℕ → ℤ
from_be_bytes (a ∷ b ∷ c ∷ d ∷ []) = signed (a * 2 ^ 24 + b * 2 ^ 16 + c * 2 ^ 8 + d)
from_be_bytes _ = pos 0

-- `&buf[len..]`
abbrev pub drop : ℕ → List ℕ → List ℕ
drop zero l = l
drop (suc n) [] = []
drop (suc n) (b ∷ l) = drop n l

module _ ⦃os : Os⦄ where
  -- the loop of `read_sync`, with the bytes that have come
  unfoldable pub read_loop : ℕ → ℕ → List ℕ → Exec os.World (Option (List ℕ))
  read_loop zero fd v = pure none
  read_loop (suc fuel) fd v = do
    r ← attempt (os.read_fd fd (pidsize - length v))
    let again = λ (v' : List ℕ). read_loop fuel fd v'
    elim r [
      | ok l ↦ if length (v ++ l) == pidsize then pure (some (v ++ l)) else again (v ++ l)
      | err (nix eintr) ↦ again v
      | err e ↦ raise e
      | panic ↦ crash
    ]

  -- `read_sync`
  unfoldable pub read_sync : ℕ → ℕ → Exec os.World (Option ℤ)
  unfolding read_loop from_be_bytes
  read_sync fuel fd = do
    v ← read_loop fuel fd []
    pure (elim v [ none ↦ none | some bytes ↦ some (from_be_bytes bytes) ])

  -- the loop of `write_sync`, with the bytes that are left
  unfoldable pub write_loop : ℕ → ℕ → List ℕ → Exec os.World (Option (Unit {0}))
  write_loop zero fd buf = pure none
  write_loop (suc fuel) fd buf = do
    r ← attempt (os.write_fd fd buf)
    let again = λ (left : List ℕ). write_loop fuel fd left
    elim r [
      | ok l ↦ if length (drop l buf) == 0 then pure (some tt) else again (drop l buf)
      | err (nix eintr) ↦ again buf
      | err e ↦ raise e
      | panic ↦ crash
    ]

  -- `write_sync`
  unfoldable pub write_sync : ℕ → ℕ → ℤ → Exec os.World (Option (Unit {0}))
  unfolding write_loop to_be_bytes
  write_sync fuel fd pid = write_loop fuel fd (to_be_bytes pid)
