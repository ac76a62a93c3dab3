-- ===== src/Grpc/Files/Laws.antt =====
-- Where a copied file may go, and what the agent says of the size of a memory block (src/grpc.rs).
use Prim.Native.String.{◌++◌}
use Prim.Native.String.append
use Prim.Native.Char.{Char}
use kata_rust_agent.Base.{
  ℕ, ◌^◌, ◌<◌, String, Bool, true, false, ◌≡◌, refl, ap, ◌∙◌, inl, inr, Bool-cases, str_eq, eq_iff,
}
use mathlib.Core.Path.{subst}
use kata_rust_agent.Base.Print.{show_ℕ}
use kata_rust_agent.Base.Print.RoundTrip.{
  IsEnd, NonEmpty, show_ℕ-AllDigits, trim-digits, parse_u64-show_ℕ,
}
use kata_rust_agent.Base.Exec.{Exec, Outcome, Error, ok, err, pure, ◌>>=◌}
use kata_rust_agent.Base.Exec.Keeps.{Keeps}
use kata_rust_agent.Base.Exec.Laws.{bind_step}
use kata_rust_agent.Os.{Os}
use kata_rust_agent.Grpc.Files.{CopyFileRequest, do_copy_file, block_size_of, get_memory_info}

module _ ⦃os : Os⦄ (req : CopyFileRequest) (w : os.World) where
  -- A path that cannot be resolved, as that of a file that is not there yet, is refused with the
  -- system's error, and nothing is copied.
  pub do_copy_file-absent :
      (e : Error) → os.canonicalize req.path w ≡ err e → do_copy_file req w ≡ (err e, w)
  unfolding do_copy_file
  do_copy_file-absent e absent = rw absent refl

cons_filled : (c : Char) (s : String) → str_eq (String.◌∷◌ c s) "" ≡ false
cons_filled c s = elim (Bool-cases (str_eq (String.◌∷◌ c s) "")) [
  | inl same ↦ absurd (subst NonEmpty ((eq_iff (String.◌∷◌ c s) "").0 same) tt)
  | inr differ ↦ differ
]

filled : (s tail : String) → NonEmpty s → str_eq (s ++ tail) "" ≡ false
filled String.[] tail more = absurd more
filled (String.◌∷◌ c s) tail more = rw (append.cons c s tail) (cons_filled c (s ++ tail))

block_size_of-show_ℕ :
    (n : ℕ) (tail : String) → n < 2 ^ 64 → IsEnd tail → block_size_of (ok (show_ℕ n ++ tail)) ≡ ok n
unfolding block_size_of
block_size_of-show_ℕ n tail small h =
    let (all, more) = show_ℕ-AllDigits n in
    rw
      (
        filled (show_ℕ n) tail more,
        trim-digits (show_ℕ n) tail all more h,
        parse_u64-show_ℕ n small,
      )
      refl

-- The size of a memory block is read as a decimal number.
pub get_memory_info-show_ℕ :
    ⦃os : Os⦄ (n : ℕ) (tail : String) (w : os.World)
    → n < 2 ^ 64
    → IsEnd tail
    → os.read_to_string "/sys/devices/system/memory/block_size_bytes" w ≡ ok (show_ℕ n ++ tail)
    → Path (Outcome (ℕ × Bool) × os.World) (get_memory_info true false w) (ok (n, false), w)
unfolding get_memory_info
get_memory_info-show_ℕ ⦃os⦄ n tail w small h read =
    let path : String = "/sys/devices/system/memory/block_size_bytes" in
    bind_step (λ (t : os.World). (block_size_of (os.read_to_string path t), t))
      (λ n. pure false >>= λ b. pure (n, b)) w w n
      (ap (λ o. (block_size_of o, w)) read ∙ ap (λ o. (o, w)) (block_size_of-show_ℕ n tail small h))
