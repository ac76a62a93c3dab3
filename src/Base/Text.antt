-- ===== src/Base/Text.antt =====
-- What the program uses of Rust's `str`, over the native `String`: splitting, trimming, parsing and
-- printing numbers.
use Prim.Native.Nat.{ℕ, zero, suc, ◌+◌, ◌-◌, ◌*◌, ◌^◌}
use Prim.Native.Char.{Char, code}
use Prim.Native.String.{String, len, find, slice}
use mathlib.Core.Bool.{Bool, ◌&&◌, ◌||◌}
use mathlib.Core.Option.{Option, none, some}
use mathlib.Core.List.{List, [], ◌∷◌, map}
use kata_rust_agent.Base.Tests.{ltb, leb, ◌==◌, if◌then◌else◌}
use kata_rust_agent.Base.Int.{ℤ, pos, negsuc}

-- A character in front of the first piece.
abbrev pub push_head : Char → List String → List String
push_head c [] = String.◌∷◌ c "" ∷ []
push_head c (w ∷ ws) = String.◌∷◌ c w ∷ ws

-- `s.split(sep)`: one piece more than there are separators.
unfoldable pub split : ℕ → String → List String
split sep String.[] = "" ∷ []
split sep (String.◌∷◌ c s) =
    let rest = split sep s in if code c == sep then "" ∷ rest else push_head c rest

-- `s.splitn(2, sep)`: the text before the first separator and all that follows it.
unfoldable pub split_once : ℕ → String → Option (String × String)
split_once sep String.[] = none
split_once sep (String.◌∷◌ c s) =
    let rest = split_once sep s in
    if code c == sep
    then some ("", s)
    else elim rest [ none ↦ none | some (k, v) ↦ some (String.◌∷◌ c k, v) ]

-- `s.split(sep)` for a text as separator. Each piece but the last takes a separator, so there are at
-- most as many as bytes.
unfoldable pub split_text_from : ℕ → String → String → List String
split_text_from zero sep s = s ∷ []
split_text_from (suc fuel) sep s =
    let i = find s sep in
    let rest = split_text_from fuel sep (slice s (i + len sep) (len s)) in
    if leb i (len s) then slice s 0 i ∷ rest else s ∷ []

unfoldable pub split_text : String → String → List String
unfolding split_text_from
split_text sep s = split_text_from (len s) sep s

-- The characters of Unicode's White_Space property, which `trim` and `split_whitespace` test.
unfoldable pub is_whitespace : ℕ → Bool
is_whitespace c =
    (leb 9 c && leb c 13)
    || (c == 32)
    || (c == 0x85)
    || (c == 0xa0)
    || (c == 0x1680)
    || (leb 0x2000 c && leb c 0x200a)
    || (c == 0x2028)
    || (c == 0x2029)
    || (c == 0x202f)
    || (c == 0x205f)
    || (c == 0x3000)

unfoldable pub trim_start : String → String
unfolding is_whitespace
trim_start String.[] = ""
trim_start (String.◌∷◌ c s) =
    let rest = trim_start s in if is_whitespace (code c) then rest else String.◌∷◌ c s

abbrev pub keep_unless_blank : Char → String → String
keep_unless_blank c String.[] = ""
keep_unless_blank c (String.◌∷◌ d s) = String.◌∷◌ c (String.◌∷◌ d s)

unfoldable pub trim_end : String → String
unfolding is_whitespace
trim_end String.[] = ""
trim_end (String.◌∷◌ c s) =
    let rest = trim_end s in
    if is_whitespace (code c) then keep_unless_blank c rest else String.◌∷◌ c rest

unfoldable pub trim : String → String
unfolding trim_start trim_end
trim s = trim_end (trim_start s)

-- The last piece of a text that ends in a line break is no line.
abbrev pub drop_last_empty : List String → List String
drop_last_empty [] = []
drop_last_empty (String.[] ∷ []) = []
drop_last_empty (String.[] ∷ w ∷ ws) = "" ∷ drop_last_empty (w ∷ ws)
drop_last_empty (String.◌∷◌ c s ∷ ws) = String.◌∷◌ c s ∷ drop_last_empty ws

-- A carriage return before the line break is no part of the line.
unfoldable pub strip_return : String → String
strip_return String.[] = ""
strip_return (String.◌∷◌ c String.[]) = if code c == 13 then "" else String.◌∷◌ c ""
strip_return (String.◌∷◌ c (String.◌∷◌ d s)) = String.◌∷◌ c (strip_return (String.◌∷◌ d s))

-- `s.lines()`
unfoldable pub lines : String → List String
unfolding split strip_return
lines s = map strip_return (drop_last_empty (split 10 s))

-- `s.contains(t)`
unfoldable pub contains : String → String → Bool
contains s t = leb (find s t) (len s)

-- The value of a digit in a base up to 16.
unfoldable pub digit_value : ℕ → ℕ → Option ℕ
digit_value radix c =
    let d =
      if leb 48 c && leb c 57
      then c - 48
      else if leb 97 c && leb c 102
      then c - 87
      else if leb 65 c && leb c 70
      then c - 55
      else 16 in
    if ltb d radix then some d else none

unfoldable pub digits_from : ℕ → ℕ → String → Option ℕ
unfolding digit_value
digits_from radix n String.[] = some n
digits_from radix n (String.◌∷◌ c s) = elim (digit_value radix (code c)) [
  | none ↦ none
  | some d ↦ digits_from radix (n * radix + d) s
]

abbrev pub below : ℕ → Option ℕ → Option ℕ
below bound none = none
below bound (some n) = if ltb n bound then some n else none

-- `uN::from_str_radix`: an optional plus sign and at least one digit, below `bound`.
unfoldable pub parse_radix : ℕ → ℕ → String → Option ℕ
unfolding digits_from
parse_radix radix bound String.[] = none
parse_radix radix bound (String.◌∷◌ c String.[]) =
    below bound (digits_from radix 0 (String.◌∷◌ c ""))
parse_radix radix bound (String.◌∷◌ c (String.◌∷◌ d s)) =
    if code c == 43
    then below bound (digits_from radix 0 (String.◌∷◌ d s))
    else below bound (digits_from radix 0 (String.◌∷◌ c (String.◌∷◌ d s)))

-- `s.parse::<u64>()` and `s.parse::<u32>()`
unfoldable pub parse_u64 : String → Option ℕ
unfolding parse_radix
parse_u64 s = parse_radix 10 (2 ^ 64) s

unfoldable pub parse_u32 : String → Option ℕ
unfolding parse_radix
parse_u32 s = parse_radix 10 (2 ^ 32) s

abbrev pub positive : Option ℕ → Option ℤ
positive none = none
positive (some n) = some (pos n)

abbrev pub negative : Option ℕ → Option ℤ
negative none = none
negative (some zero) = some (pos 0)
negative (some (suc n)) = some (negsuc n)

-- `s.parse::<i32>()`: a minus sign may stand before the digits too.
unfoldable pub parse_i32 : String → Option ℤ
unfolding parse_radix digits_from
parse_i32 String.[] = none
parse_i32 (String.◌∷◌ c String.[]) = positive (parse_radix 10 (2 ^ 31) (String.◌∷◌ c ""))
parse_i32 (String.◌∷◌ c (String.◌∷◌ d s)) =
    if code c == b'-'
    then negative (below (2 ^ 31 + 1) (digits_from 10 0 (String.◌∷◌ d s)))
    else positive (parse_radix 10 (2 ^ 31) (String.◌∷◌ c (String.◌∷◌ d s)))
