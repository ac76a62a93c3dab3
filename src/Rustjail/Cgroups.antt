-- ===== src/Rustjail/Cgroups.antt =====
-- The cgroup file system (rustjail/src/cgroups/fs/mod.rs): reading and writing its files.
pub mod Resources
pub mod Devices
pub mod Stats
pub mod CopyParent
pub mod Sizes
pub mod Procs
pub mod Manager
pub mod Totals
pub mod RoundTrip
use Prim.Native.Char.{code}
use Prim.Native.String.{◌++◌}
use kata_rust_agent.Base.{
  ℕ, zero, suc, String, Bool, true, false, not, ◌&&◌, Option, none, some, List, [], ◌∷◌, ℤ, pos,
  eq_ℤ, ◌==◌, str_eq, if◌then◌else◌,
}
use kata_rust_agent.Base.Dict.{Dict, put}
use kata_rust_agent.Base.Print.{show_ℤ}
use kata_rust_agent.Base.Text.{split, trim, lines, parse_u64}
use kata_rust_agent.Base.Exec.{
  Exec, Outcome, ok, err, panic, Error, error_code, io, parse_int, permission_denied, not_found,
  other, einval, enodev, erange, pure, raise, crash, gets, or_raise, attempt, raise_if, IoKind,
  Errno, ◌>>=◌, ◌>>◌,
}
use kata_rust_agent.Os.{Os}

-- `dir.rfind('/')`: the text before the last slash
unfoldable pub before_slash : String → Option String
before_slash String.[] = none
before_slash (String.◌∷◌ c s) =
    let rest = before_slash s in
    elim rest [ none ↦ if code c == b'/' then some "" else none | some p ↦ some (String.◌∷◌ c p) ]

-- one line of a file of keys and numbers: two fields and no more, or the line is passed over
unfoldable pub key_u64 : List String → Dict ℕ → Outcome (Dict ℕ)
unfolding parse_u64 trim put
key_u64 (k ∷ v ∷ []) m = elim (parse_u64 (trim v)) [
  | none ↦ err parse_int
  | some n ↦ ok (put k n m)
]
key_u64 _ m = ok m

unfoldable pub keys_u64 : List String → Dict ℕ → Outcome (Dict ℕ)
unfolding key_u64 split
keys_u64 [] m = ok m
keys_u64 (l ∷ ls) m = elim (key_u64 (split b' ' l) m) [
  | ok m' ↦ keys_u64 ls m'
  | err e ↦ err e
  | panic ↦ panic
]

-- the numbers of a file with one number for each processor
unfoldable pub numbers_u64 : List String → Outcome (List ℕ)
unfolding parse_u64 trim
numbers_u64 [] = ok []
numbers_u64 (n ∷ ns) =
    let rest = numbers_u64 ns in
    if str_eq (trim n) "" then rest else elim (parse_u64 (trim n)) [
      | none ↦ err parse_int
      | some v ↦ elim rest [ ok vs ↦ ok (v ∷ vs) | err e ↦ err e | panic ↦ panic ]
    ]

-- the errors of the last system call that `try_write_file` ignores
abbrev pub is_ignored : Errno → Bool
is_ignored einval = true
is_ignored enodev = true
is_ignored erange = true
is_ignored _ = false

module _ ⦃os : Os⦄ where
  -- `write_file`
  unfoldable pub write_file : String → String → String → Exec os.World (Unit {0})
  write_file dir file v = os.write (dir ++ "/" ++ file) v

  -- `read_file` and `get_param_string`
  unfoldable pub read_file : String → String → Exec os.World String
  read_file dir file w = (os.read_to_string (dir ++ "/" ++ file) w, w)

  -- `copy_parent`. Each call needs one level of the stack; out of it the program aborts.
  unfoldable pub copy_parent : ℕ → String → String → Exec os.World (Unit {0})
  unfolding before_slash read_file write_file trim
  copy_parent zero dir file = crash
  copy_parent (suc depth) dir file = do
    parent ← or_raise (before_slash dir) (error_code "cannot copy file from parent")
    let up : Exec os.World (Unit {0}) = do copy_parent depth parent file; copy_parent depth dir file
    r ← attempt (read_file parent file)
    elim r [
      | ok v ↦ if not (str_eq (trim v) "") then write_file dir file v else up
      | err (io not_found) ↦ up
      | err e ↦ raise e
      | panic ↦ crash
    ]

  -- `write_nonzero`
  unfoldable pub write_nonzero : String → String → ℤ → Exec os.World (Unit {0})
  unfolding write_file show_ℤ
  write_nonzero dir file v =
      if not (eq_ℤ v (pos 0)) then write_file dir file (show_ℤ v) else pure tt

  -- `try_write_nonzero`
  unfoldable pub try_write_nonzero : String → String → ℤ → Exec os.World (Unit {0})
  unfolding write_nonzero
  try_write_nonzero dir file v = do
    r ← attempt (write_nonzero dir file v)
    elim r [
      | ok _ ↦ pure tt
      | err (io permission_denied) ↦ pure tt
      | err e ↦ raise e
      | panic ↦ crash
    ]

  -- `try_write_file`
  unfoldable pub try_write_file : String → String → String → Exec os.World (Unit {0})
  unfolding write_file
  try_write_file dir file v = do
    r ← attempt (write_file dir file v)
    last ← gets os.last_errno
    elim r [ ok _ ↦ pure tt | err e ↦ raise_if (not (is_ignored last)) e | panic ↦ crash ]

  -- `try_write`
  unfoldable pub try_write : String → String → String → Exec os.World (Unit {0})
  unfolding write_file
  try_write dir file v = do
    r ← attempt (write_file dir file v)
    elim r [
      | ok _ ↦ pure tt
      | err (io permission_denied) ↦ pure tt
      | err (io other) ↦ pure tt
      | err e ↦ raise e
      | panic ↦ crash
    ]

  -- `write_blkio_device`
  unfoldable pub write_blkio_device : String → String → String → Exec os.World (Unit {0})
  unfolding write_file
  write_blkio_device dir file v = do
    r ← attempt (write_file dir file v)
    last ← gets os.last_errno
    elim r [
      | ok _ ↦ pure tt
      | err (io other) ↦ elim last [ enodev ↦ pure tt | _ ↦ raise (io other) ]
      | err e ↦ raise e
      | panic ↦ crash
    ]

  -- `get_param_key_u64`
  unfoldable pub get_param_key_u64 : String → String → Exec os.World (Dict ℕ)
  unfolding read_file lines keys_u64
  get_param_key_u64 dir file = do text ← read_file dir file; λ w. (keys_u64 (lines text) [], w)

  -- `get_param_u64`
  unfoldable pub get_param_u64 : String → String → Exec os.World ℕ
  unfolding read_file parse_u64 trim
  get_param_u64 dir file = do text ← read_file dir file; or_raise (parse_u64 (trim text)) parse_int

  -- `get_percpu_usage`
  unfoldable pub get_percpu_usage : String → String → Exec os.World (List ℕ)
  unfolding read_file split numbers_u64
  get_percpu_usage dir file = do text ← read_file dir file; λ w. (numbers_u64 (split b' ' text), w)
