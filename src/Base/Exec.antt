-- ===== src/Base/Exec.antt =====
-- Outcomes of fallible code, and code that changes a state. A Rust function returns, returns an
-- error, or panics at an `unwrap` or an index out of range. What was written before an error stays
-- written, so the state comes back with every outcome.
pub mod Laws
pub mod Keeps
use Prim.Native.Nat.{ℕ}
use Prim.Native.String.{String}
use mathlib.Core.Bool.{Bool, true, false}
use mathlib.Core.Option.{Option, none, some}
use mathlib.Core.List.{List, [], ◌∷◌}

-- `std::io::ErrorKind`, as far as the program looks at it.
pub data IoKind : Type 0 where
  not_found permission_denied already_exists other : IoKind

-- `nix::errno::Errno`, as far as the program names its values; `raw` is any other.
pub data Errno : Type 0 where
  einval enoent eagain eintr etime etimedout epipe eio enodev erange eperm enotdir unknown : Errno
  raw : ℕ → Errno

-- `rustjail::errors::ErrorKind` and the foreign errors it links; `chain` is `chain_err`.
pub data Error : Type 0 where
  error_code msg : String → Error
  io : IoKind → Error
  nix : Errno → Error
  parse_int nul_byte : Error
  chain : String → Error → Error

pub data Outcome (A : Type 0) : Type 0 where
  ok : A → Outcome A
  err : Error → Outcome A
  panic : Outcome A

abbrev pub Exec : Type 0 → Type 0 → Type 0
Exec S A = S → Outcome A × S

module _ {S A : Type 0} where
  abbrev pub pure : A → Exec S A
  pure a s = (ok a, s)

  abbrev pub raise : Error → Exec S A
  raise e s = (err e, s)

  abbrev pub crash : Exec S A
  crash s = (panic, s)

  abbrev pub lift : Outcome A → Exec S A
  lift r s = (r, s)

  abbrev pub gets : (S → A) → Exec S A
  gets f s = (ok (f s), s)

  -- `o.unwrap()`
  abbrev pub unwrap : Option A → Exec S A
  unwrap none = crash
  unwrap (some a) = pure a

  -- `match o { None => return Err(e), Some(a) => a }`
  abbrev pub or_raise : Option A → Error → Exec S A
  or_raise none e = raise e
  or_raise (some a) e = pure a

  -- `let _ = m;` for a fallible call, and `if let Err(_)`: the outcome as a value; panics go on.
  abbrev pub attempt : Exec S A → Exec S (Outcome A)
  attempt m s =
      let (r, s') = m s in
      elim r [ ok a ↦ (ok (ok a), s') | err e ↦ (ok (err e), s') | panic ↦ (panic, s') ]

  -- a thread that is joined: its outcome as a value, a panic too
  abbrev pub join_thread : Exec S A → Exec S (Outcome A)
  join_thread m s = let (r, s') = m s in (ok r, s')

  -- `.chain_err(|| text)`
  abbrev pub chain_err : String → Exec S A → Exec S A
  chain_err text m s =
      let (r, s') = m s in
      elim r [ ok a ↦ (ok a, s') | err e ↦ (err (chain text e), s') | panic ↦ (panic, s') ]

abbrev pub modify : {S : Type 0} → (S → S) → Exec S (Unit {0})
modify f s = (ok tt, f s)

infixl 5 ◌>>=◌ ◌>>◌
abbrev pub ◌>>=◌ : {S A B : Type 0} → Exec S A → (A → Exec S B) → Exec S B
◌>>=◌ m f s =
    let (r, s') = m s in elim r [ ok a ↦ f a s' | err e ↦ (err e, s') | panic ↦ (panic, s') ]

abbrev pub ◌>>◌ : {S A B : Type 0} → Exec S A → Exec S B → Exec S B
m >> k = m >>= λ _. k

abbrev pub raise_if : {S : Type 0} → Bool → Error → Exec S (Unit {0})
raise_if true e = raise e
raise_if false e = pure tt

-- `for a in l { body(a)?; }`
unfoldable pub for_each : {S A : Type 0} → List A → (A → Exec S (Unit {0})) → Exec S (Unit {0})
for_each [] body = pure tt
for_each (a ∷ l) body = body a >> for_each l body
