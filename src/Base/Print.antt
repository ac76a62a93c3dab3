-- ===== src/Base/Print.antt =====
-- `to_string` of Rust's integers.
pub mod RoundTrip
use Prim.Native.Nat.{ℕ, zero, suc, ◌+◌, ◌/◌, ◌%◌}
use Prim.Native.String.{String, ◌++◌}
use kata_rust_agent.Base.Tests.{ltb, ◌==◌, if◌then◌else◌}
use kata_rust_agent.Base.Int.{ℤ, pos, negsuc}

unfoldable pub show_digit : ℕ → String
show_digit d =
    if d == 0
    then "0"
    else if d == 1
    then "1"
    else if d == 2
    then "2"
    else if d == 3
    then "3"
    else if d == 4
    then "4"
    else if d == 5
    then "5"
    else if d == 6
    then "6"
    else if d == 7
    then "7"
    else if d == 8
    then "8"
    else "9"

-- A number has at most as many digits as the fuel, which `show_ℕ` gives one more of than the number.
unfoldable pub show_digits : ℕ → ℕ → String → String
unfolding show_digit
show_digits zero n rest = rest
show_digits (suc fuel) n rest =
    let more = show_digits fuel (n / 10) (show_digit (n % 10) ++ rest) in
    if ltb n 10 then show_digit n ++ rest else more

unfoldable pub show_ℕ : ℕ → String
unfolding show_digits
show_ℕ n = show_digits (n + 1) n ""

unfoldable pub show_ℤ : ℤ → String
unfolding show_ℕ
show_ℤ (pos n) = show_ℕ n
show_ℤ (negsuc n) = "-" ++ show_ℕ (n + 1)
