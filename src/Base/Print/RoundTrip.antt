-- ===== src/Base/Print/RoundTrip.antt =====
-- A printed number is read back, alone and with the line break that the kernel ends a file with.
use Prim.Native.Nat.{ℕ, zero, suc, ◌+◌, ◌*◌, ◌/◌, ◌%◌, ◌^◌, ◌≤◌, ◌<◌}
use Prim.Native.Char.{Char, code}
use Prim.Native.String.{String, ◌++◌}
use Prim.Native.String.append
use mathlib.Core.Path.{◌≡◌, refl, sym, ap, ◌∙◌, subst}
use mathlib.Core.Bool.{false}
use mathlib.Core.Option.{some}
use native.Mathlib.Omega.{arith}
use mathlib.Core.Logic.{◌≢◌, inl, inr}
use text.Mathlib.TextFind.{find_cases}
use kata_rust_agent.Base.Tests.{ltb, Bool-cases}
use kata_rust_agent.Base.Text.{
  digits_from, below, parse_radix, parse_u64, contains, trim_start, trim_end, trim, is_whitespace,
}
use kata_rust_agent.Base.Print.{show_digit, show_digits, show_ℕ}

-- decimal digits and nothing else
unfoldable pub AllDigits : String → Type 0
AllDigits String.[] = Unit {0}
AllDigits (String.◌∷◌ c s) = (48 ≤ code c) × (code c ≤ 57) × AllDigits s

abbrev pub NonEmpty : String → Type 0
NonEmpty String.[] = ⊥
NonEmpty (String.◌∷◌ c s) = Unit {0}

-- what a digit is printed as
abbrev DigitChar : ℕ → Type 0
DigitChar d =
    (c : Char) × (code c ≡ 48 + d) × ((rest : String) → show_digit d ++ rest ≡ String.◌∷◌ c rest)

digit_char : (d : ℕ) → d < 10 → DigitChar d
unfolding show_digit
digit_char zero h =
    ("0", refl, λ rest. append.cons "0" "" rest ∙ ap (String.◌∷◌ "0") (append.nil rest))
digit_char (suc zero) h =
    ("1", refl, λ rest. append.cons "1" "" rest ∙ ap (String.◌∷◌ "1") (append.nil rest))
digit_char (suc (suc zero)) h =
    ("2", refl, λ rest. append.cons "2" "" rest ∙ ap (String.◌∷◌ "2") (append.nil rest))
digit_char (suc (suc (suc zero))) h =
    ("3", refl, λ rest. append.cons "3" "" rest ∙ ap (String.◌∷◌ "3") (append.nil rest))
digit_char (suc (suc (suc (suc zero)))) h =
    ("4", refl, λ rest. append.cons "4" "" rest ∙ ap (String.◌∷◌ "4") (append.nil rest))
digit_char (suc (suc (suc (suc (suc zero))))) h =
    ("5", refl, λ rest. append.cons "5" "" rest ∙ ap (String.◌∷◌ "5") (append.nil rest))
digit_char (suc (suc (suc (suc (suc (suc zero)))))) h =
    ("6", refl, λ rest. append.cons "6" "" rest ∙ ap (String.◌∷◌ "6") (append.nil rest))
digit_char (suc (suc (suc (suc (suc (suc (suc zero))))))) h =
    ("7", refl, λ rest. append.cons "7" "" rest ∙ ap (String.◌∷◌ "7") (append.nil rest))
digit_char (suc (suc (suc (suc (suc (suc (suc (suc zero)))))))) h =
    ("8", refl, λ rest. append.cons "8" "" rest ∙ ap (String.◌∷◌ "8") (append.nil rest))
digit_char (suc (suc (suc (suc (suc (suc (suc (suc (suc zero))))))))) h =
    ("9", refl, λ rest. append.cons "9" "" rest ∙ ap (String.◌∷◌ "9") (append.nil rest))
digit_char (suc (suc (suc (suc (suc (suc (suc (suc (suc (suc n)))))))))) h = absurd (omega arith)

-- one more digit is read
read_digit :
    (d m : ℕ) (rest : String)
    → d < 10
    → digits_from 10 m (show_digit d ++ rest) ≡ digits_from 10 (m * 10 + d) rest
unfolding digits_from
read_digit d m rest h = let (c, e, form) = digit_char d h in rw (form rest) (ground (arith, e))

-- reading the digits of `n` first gives `n`
digits_from-show_digits :
    (fuel n : ℕ) (rest : String)
    → n < fuel
    → digits_from 10 0 (show_digits fuel n rest) ≡ digits_from 10 n rest
unfolding show_digits
digits_from-show_digits zero n rest h = absurd (omega arith)
digits_from-show_digits (suc fuel) n rest h = elim (Bool-cases (ltb n 10)) [
  | inl small ↦
      rw small (
        read_digit n 0 rest (ground (arith, small)) ∙ ap (λ m. digits_from 10 m rest) (omega arith))
  | inr big ↦ rw big (
      digits_from-show_digits fuel (n / 10) (show_digit (n % 10) ++ rest) (ground (arith, big, h))
      ∙ read_digit (n % 10) (n / 10) rest (omega arith)
      ∙ ap (λ m. digits_from 10 m rest) (omega arith))
]

show_digit-AllDigits :
    (d : ℕ) (rest : String)
    → d < 10
    → AllDigits rest
    → AllDigits (show_digit d ++ rest) × NonEmpty (show_digit d ++ rest)
unfolding AllDigits
show_digit-AllDigits d rest h all =
    let (c, e, form) = digit_char d h in
    rw (form rest) ((ground (arith, e), ground (arith, e), all), tt)

show_digits-AllDigits :
    (fuel n : ℕ) (rest : String)
    → n < fuel
    → AllDigits rest
    → AllDigits (show_digits fuel n rest) × NonEmpty (show_digits fuel n rest)
unfolding show_digits
show_digits-AllDigits zero n rest h all = absurd (omega arith)
show_digits-AllDigits (suc fuel) n rest h all = elim (Bool-cases (ltb n 10)) [
  | inl small ↦ rw small (show_digit-AllDigits n rest (ground (arith, small)) all)
  | inr big ↦ rw big (
      show_digits-AllDigits fuel (n / 10) (show_digit (n % 10) ++ rest) (ground (arith, big, h))
        (show_digit-AllDigits (n % 10) rest (omega arith) all).0)
]

pub show_ℕ-AllDigits : (n : ℕ) → AllDigits (show_ℕ n) × NonEmpty (show_ℕ n)
unfolding show_ℕ AllDigits
show_ℕ-AllDigits n = show_digits-AllDigits (n + 1) n "" (omega arith) tt

-- a text of digits has no sign
parse_radix-digits :
    (bound : ℕ) (s : String)
    → AllDigits s
    → NonEmpty s
    → parse_radix 10 bound s ≡ below bound (digits_from 10 0 s)
unfolding parse_radix AllDigits
parse_radix-digits bound String.[] all more = absurd more
parse_radix-digits bound (String.◌∷◌ c String.[]) all more = refl
parse_radix-digits bound (String.◌∷◌ c (String.◌∷◌ d s)) (lo, hi, all) more = ground arith

digits_from-show_ℕ : (n : ℕ) → digits_from 10 0 (show_ℕ n) ≡ some n
unfolding show_ℕ digits_from
digits_from-show_ℕ n = digits_from-show_digits (n + 1) n "" (omega arith)

-- Every u64 is read back from its print.
pub parse_u64-show_ℕ : (n : ℕ) → n < 2 ^ 64 → parse_u64 (show_ℕ n) ≡ some n
unfolding parse_u64
parse_u64-show_ℕ n h =
    let (all, more) = show_ℕ-AllDigits n in
    parse_radix-digits (2 ^ 64) (show_ℕ n) all more
    ∙ ap (below (2 ^ 64)) (digits_from-show_ℕ n)
    ∙ (ground arith)

-- the texts that the kernel ends a number with
pub data IsEnd : String → Type 0 where
  bare : IsEnd ""
  line : IsEnd "\n"

trim_end_of : (s tail : String) → AllDigits s → IsEnd tail → trim_end (s ++ tail) ≡ s
unfolding trim_end AllDigits is_whitespace
trim_end_of String.[] _ all bare = refl
trim_end_of String.[] _ all line = refl
trim_end_of (String.◌∷◌ c s) tail (lo, hi, all) h =
    rw (append.cons c s tail, trim_end) (ground (arith, trim_end_of s tail all h))

-- Digits are left by `trim`, their line break is not.
pub trim-digits : (s tail : String) → AllDigits s → NonEmpty s → IsEnd tail → trim (s ++ tail) ≡ s
unfolding trim trim_start AllDigits is_whitespace
trim-digits String.[] tail all more h = absurd more
trim-digits (String.◌∷◌ c s) tail (lo, hi, all) more h =
    let printable : is_whitespace (code c) ≡ false = ground arith in
    rw (append.cons c s tail, trim_start)
      (rw printable (
        ap trim_end (sym (append.cons c s tail))
        ∙ trim_end_of (String.◌∷◌ c s) tail (lo, hi, all) h))

-- no `m`
NoM : String → Type 0
NoM String.[] = Unit {0}
NoM (String.◌∷◌ c s) = (code c ≢ b'm') × NoM s

digits-NoM : (s tail : String) → AllDigits s → IsEnd tail → NoM (s ++ tail)
unfolding NoM AllDigits
digits-NoM String.[] _ all bare = tt
digits-NoM String.[] _ all line = (omega arith, tt)
digits-NoM (String.◌∷◌ c s) tail (lo, hi, all) h =
    rw (append.cons c s tail) (omega arith, digits-NoM s tail all h)

suffix-NoM : (u v : String) → NoM (u ++ v) → NoM v
unfolding NoM
suffix-NoM String.[] v h = rw (append.nil v) at h
suffix-NoM (String.◌∷◌ c u) v h = suffix-NoM u v ((rw (append.cons c u v) at h).1)

max_has_m : (v : String) → NoM ("max" ++ v) → ⊥
unfolding NoM
max_has_m v h = (rw (append.cons "m" "ax" v) at h).0 refl

-- A number, with or without its line break, does not contain "max".
pub contains-digits :
    (s tail : String) → AllDigits s → IsEnd tail → contains (s ++ tail) "max" ≡ false
unfolding contains
contains-digits s tail all h = elim (find_cases (s ++ tail) "max") [
  | inl (u, v, e, _) ↦
      absurd (max_has_m v (suffix-NoM u ("max" ++ v) (subst NoM e (digits-NoM s tail all h))))
  | inr miss ↦ ground (arith, miss)
]
