-- ===== src/Rustjail/Cgroups/Sizes.antt =====
-- The names of the huge page sizes (`parse_size`, `custom_size` and `get_hugepage_sizes` of
-- rustjail/src/cgroups/fs/mod.rs). The regular expression and the decimal text of an `f64` are
-- parameters: what a text is matched to, and the text of a quotient.
pub mod Laws
use Prim.Native.String.{◌++◌}
use kata_rust_agent.Base.{
  ℕ, zero, suc, ◌*◌, ◌%◌, ◌^◌, ltb, String, Option, none, some, List, [], ◌∷◌, map, if◌then◌else◌,
}
use kata_rust_agent.Base.Dict.{Dict, get}
use kata_rust_agent.Base.Text.{split, digits_from}
use kata_rust_agent.Base.Exec.{
  Exec, Outcome, ok, err, panic, nix, einval, parse_int, pure, raise, crash, unwrap, or_raise, lift,
  ◌>>=◌,
}
use kata_rust_agent.Os.{Os}

-- `BMAP`
abbrev pub bmap : Dict ℕ
bmap = ("k", 1024) ∷ ("m", 1024 ^ 2) ∷ ("g", 1024 ^ 3) ∷ ("t", 1024 ^ 4) ∷ ("p", 1024 ^ 5) ∷ []

-- `DABBRS`
abbrev pub dabbrs : List String
dabbrs = "B" ∷ "KB" ∷ "MB" ∷ "GB" ∷ "TB" ∷ "PB" ∷ "EB" ∷ "ZB" ∷ "YB" ∷ []

-- `s.parse::<u128>()` of the digits that the expression found
abbrev pub fits_u128 : Option ℕ → Option ℕ
fits_u128 none = none
fits_u128 (some n) = if ltb n (2 ^ 128) then some n else none

-- `parse_size`: `captures` gives the groups `num` and `mul` of a match; a text without a match is a
-- panic, and a product past a u128 wraps
unfoldable pub parse_size : (String → Option (String × String)) → String → Dict ℕ → Outcome ℕ
unfolding digits_from get
parse_size captures s m = elim (captures s) [
  | none ↦ panic
  | some groups ↦ elim (fits_u128 (digits_from 10 0 groups.0)) [
    | none ↦ err parse_int
    | some size ↦ elim (get groups.1 m) [
      | none ↦ err (nix einval)
      | some mul ↦ ok ((size * mul) % 2 ^ 128)
    ]
  ]
]

-- `m[i]`
abbrev pub nth : List String → ℕ → Option String
nth [] i = none
nth (x ∷ xs) zero = some x
nth (x ∷ xs) (suc i) = nth xs i

-- the loop of `custom_size` over the quotient `size / base ^ i`: how often it divides. A quotient of
-- floating point numbers by a power of two is exact. The bound on the rounds is the size itself.
unfoldable pub divisions : ℕ → ℕ → ℕ → ℕ → ℕ
divisions zero size base i = i
divisions (suc fuel) size base i =
    let rest = divisions fuel size base (suc i) in if ltb (base ^ suc i) size then rest else i

-- `custom_size`, with `show_f64` the text of a quotient; a size past the last unit is a panic
unfoldable pub custom_size : (ℕ → ℕ → String) → ℕ → ℕ → List String → Outcome String
unfolding divisions
custom_size show_f64 size base units =
    let i = divisions size size base 0 in
    elim (nth units i) [ none ↦ panic | some unit ↦ ok (show_f64 size (base ^ i) ++ unit) ]

-- the loop of `get_hugepage_sizes`
module _ (captures : String → Option (String × String)) (show_f64 : ℕ → ℕ → String) where
  abbrev pub size_name : String → Outcome String
  size_name s = elim (parse_size captures s bmap) [
    | ok size ↦ custom_size show_f64 size 1024 dabbrs
    | err e ↦ err e
    | panic ↦ panic
  ]

  abbrev pub then_cons : Outcome String → Outcome (List String) → Outcome (List String)
  then_cons (ok n) (ok ns) = ok (n ∷ ns)
  then_cons (ok n) (err e) = err e
  then_cons (ok n) panic = panic
  then_cons (err e) rest = err e
  then_cons panic rest = panic

  unfoldable pub size_names : List String → Outcome (List String)
  unfolding split parse_size custom_size
  size_names [] = ok []
  size_names (name ∷ names) =
      let rest = size_names names in
      elim (split b'-' name) [ _ ∷ size ∷ [] ↦ then_cons (size_name size) rest | _ ↦ rest ]

  -- `get_hugepage_sizes`
  unfoldable pub get_hugepage_sizes : ⦃os : Os⦄ → Exec os.World (List String)
  unfolding size_names
  get_hugepage_sizes ⦃os⦄ w = elim (os.read_dir "/sys/kernel/mm/hugepages" w) [
    | ok names ↦ (size_names names, w)
    | err e ↦ (err e, w)
    | panic ↦ (panic, w)
  ]

  -- `HUGEPAGESIZES`: no sizes where they cannot be had
  unfoldable pub hugepage_sizes : ⦃os : Os⦄ → Exec os.World (List String)
  unfolding get_hugepage_sizes
  hugepage_sizes ⦃os⦄ w = elim (get_hugepage_sizes w).0 [
    | ok names ↦ (ok names, w)
    | err e ↦ (ok [], w)
    | panic ↦ (panic, w)
  ]
