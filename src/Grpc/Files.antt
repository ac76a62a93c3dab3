-- ===== src/Grpc/Files.antt =====
-- The requests about the guest itself: copying a file into it, and what it says of its memory
-- (`do_copy_file`, `get_memory_info` and `get_guest_details` of src/grpc.rs).
pub mod Laws
use Prim.Native.String.{◌++◌}
use kata_rust_agent.Base.{
  ℕ, String, Bool, true, false, not, ◌||◌, Option, none, some, List, [], ◌∷◌, ℤ, pos, eq_ℤ, str_eq,
  starts_with, if◌then◌else◌,
}
use kata_rust_agent.Base.Text.{parse_u64, trim}
use kata_rust_agent.Base.Exec.{
  Exec, Outcome, ok, err, panic, Error, error_code, msg, io, nix, einval, enoent, not_found,
  already_exists, parse_int, pure, raise, crash, or_raise, attempt, raise_if, gets, ◌>>=◌, ◌>>◌,
}
use kata_rust_agent.Os.{Os}

-- `CopyFileRequest`
pub record CopyFileRequest : Type 0 where
  pub path : String
  pub file_size : ℤ
  pub file_mode : ℕ
  pub dir_mode : ℕ
  pub uid : ℕ
  pub gid : ℕ
  pub offset : ℕ
  pub content : List ℕ

-- `path.starts_with(CONTAINER_BASE)`, by components
unfoldable pub is_below_base : String → Bool
is_below_base path = str_eq path "/run/agent" || starts_with path "/run/agent/"

-- the directory of a path, and the root for a path without one
abbrev pub dir_of : Option String → String
dir_of none = "/"
dir_of (some dir) = dir

-- the size of a memory block in `get_memory_info`
unfoldable pub block_size_of : Outcome String → Outcome ℕ
unfolding parse_u64 trim
block_size_of (ok v) =
    if str_eq v ""
    then err (error_code "Invalid block size")
    else elim (parse_u64 (trim v)) [ none ↦ err parse_int | some n ↦ ok n ]
block_size_of (err (io not_found)) = ok 0
block_size_of (err e) = err e
block_size_of panic = panic

-- whether the file of hot-plugged memory is there; an error without a number is a panic where it is
-- logged
abbrev pub probe_of : Outcome ℤ → Outcome Bool
probe_of (ok _) = ok true
probe_of (err (nix enoent)) = ok false
probe_of (err (nix e)) = err (nix e)
probe_of (err e) = panic
probe_of panic = panic

module _ ⦃os : Os⦄ where
  -- a directory that is there is no error
  abbrev pub made : Outcome (Unit {0}) → Exec os.World (Unit {0})
  made (ok _) = pure tt
  made (err (io already_exists)) = pure tt
  made (err e) = raise e
  made panic = crash

  abbrev pub make_dir : String → Exec os.World (Unit {0})
  make_dir dir = do r ← attempt (os.create_dir_all dir); made r

  -- `libc::chmod` on `as_ptr` of a text, which does not end in a NUL
  abbrev pub chmod_at : String → ℕ → Exec os.World (Unit {0})
  chmod_at path mode = do p ← gets (os.text_at path); os.chmod p mode

  -- the last part of `do_copy_file`: a file that has its full size gets its name
  unfoldable pub finish_copy : CopyFileRequest → String → String → Exec os.World (Unit {0})
  finish_copy req path tmpfile = do
    size ← (λ w. (os.stat_size tmpfile w, w))
    if not (eq_ℤ size req.file_size) then pure tt else (do
      chmod_at tmpfile req.file_mode
      os.chown tmpfile req.uid req.gid
      os.rename tmpfile path)

  -- what follows the check of the path
  unfoldable pub copy_to : CopyFileRequest → String → Exec os.World (Unit {0})
  unfolding finish_copy
  copy_to req path = do
    let dir = dir_of (os.parent path)
    let tmpfile = os.with_extension path "tmp"
    make_dir dir
    chmod_at dir req.dir_mode
    os.touch tmpfile
    os.write_at tmpfile req.content req.offset
    finish_copy req path tmpfile

  -- `do_copy_file`
  unfoldable pub do_copy_file : CopyFileRequest → Exec os.World (Unit {0})
  unfolding is_below_base copy_to
  do_copy_file req = do
    path ← (λ w. (os.canonicalize req.path w, w))
    raise_if (not (is_below_base path)) (nix einval)
    copy_to req path

  -- `get_memory_info`
  unfoldable pub get_memory_info : Bool → Bool → Exec os.World (ℕ × Bool)
  unfolding block_size_of
  get_memory_info block_size hotplug = do
    size ←
        (if block_size
          then (λ w. (
            block_size_of (os.read_to_string "/sys/devices/system/memory/block_size_bytes" w),
            w,
          ))
          else pure 0)
    plug ←
        (if hotplug
          then (λ w. (probe_of (os.stat_size "/sys/devices/system/memory/probe" w), w))
          else pure false)
    pure (size, plug)

  -- `get_guest_details`, without the agent's own details
  unfoldable pub get_guest_details : Bool → Bool → Exec os.World (ℕ × Bool)
  unfolding get_memory_info
  get_guest_details block_size hotplug = do
    r ← attempt (get_memory_info block_size hotplug)
    elim r [ ok d ↦ pure d | err e ↦ raise (msg "internal error") | panic ↦ crash ]
