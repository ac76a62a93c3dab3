-- ===== src/Rustjail/Cgroups/Sizes/Laws.antt =====
-- Which unit `custom_size` (rustjail/src/cgroups/fs/mod.rs) gives a size in.
use Prim.Native.String.{◌++◌}
use native.Mathlib.Nat.{pow-suc, one-le-pow, pow-le-pow_right}
use kata_rust_agent.Base.{
  ℕ, zero, suc, ◌+◌, ◌^◌, ◌≤◌, ◌<◌, ltb, String, true, Option, none, some, ◌≡◌, refl, arith, ap,
  ◌∙◌, ◌⊎◌, inl, inr, Bool-cases,
}
use kata_rust_agent.Base.Exec.{Outcome, ok, panic}
use kata_rust_agent.Rustjail.Cgroups.Sizes.{nth, dabbrs, divisions, custom_size}

-- the unit of a size: the size is at most the next one, and more than this one unless it is the first
abbrev pub IsUnit : ℕ → ℕ → Type 0
IsUnit size i = (size ≤ 1024 ^ suc i) × ((i ≡ 0) ⊎ (1024 ^ i < size))

-- a size in a unit
abbrev pub named : (ℕ → ℕ → String) → ℕ → ℕ → Option String → Outcome String
named show_f64 size i none = panic
named show_f64 size i (some unit) = ok (show_f64 size (1024 ^ i) ++ unit)

divisions-IsUnit :
    (fuel size i : ℕ)
    → size ≤ 1024 ^ suc i + fuel
    → (i ≡ 0) ⊎ (1024 ^ i < size)
    → IsUnit size (divisions fuel size 1024 i)
unfolding divisions
divisions-IsUnit zero size i fits above = (omega (arith, fits), above)
divisions-IsUnit (suc fuel) size i fits above = elim (Bool-cases (ltb (1024 ^ suc i) size)) [
  | inl more ↦ rw more (
      divisions-IsUnit fuel size (suc i)
        (ground (arith, fits, more, pow-suc 1024 (suc i), one-le-pow (suc i) 1024 (omega arith)))
        (inr (ground (arith, more))))
  | inr last ↦ rw last (ground (arith, last), above)
]

power_le : (i j : ℕ) → ltb i j ≡ true → 1024 ^ suc i ≤ 1024 ^ j
power_le i j h = pow-le-pow_right {n = 1024} (omega arith) {i = suc i} {j = j} (ground (arith, h))

unit_unique : (size i j : ℕ) → IsUnit size i → IsUnit size j → i ≡ j
unit_unique size i j (fits, above) (most, more) = elim (Bool-cases (ltb i j)) [
  | inl less ↦ absurd (ground (arith, fits, more, less, power_le i j less))
  | inr not_less ↦ elim (Bool-cases (ltb j i)) [
    | inl greater ↦ absurd (ground (arith, above, greater, most, power_le j i greater))
    | inr not_greater ↦ ground (arith, not_less, not_greater)
  ]
]

elim_unit :
    (show_f64 : ℕ → ℕ → String) (size i : ℕ) (u : Option String)
    → elim u as (λ x. Outcome String) [
      | none ↦ panic
      | some unit ↦ ok (show_f64 size (1024 ^ i) ++ unit)
    ]
      ≡ named show_f64 size i u
elim_unit show_f64 size i none = refl
elim_unit show_f64 size i (some unit) = refl

-- `custom_size` gives a size of at least one byte in the unit that the size is more than once, and at
-- most 1024 times; the first unit also takes a size of one byte. No such unit is a panic.
pub custom_size_lem :
    (show_f64 : ℕ → ℕ → String) (size i : ℕ)
    → IsUnit size i
    → custom_size show_f64 size 1024 dabbrs ≡ named show_f64 size i (nth dabbrs i)
unfolding custom_size
custom_size_lem show_f64 size i unit =
    let found : divisions size size 1024 0 ≡ i =
      unit_unique size (divisions size size 1024 0) i
        (divisions-IsUnit size size 0 (omega arith) (inl refl)) unit in
    elim_unit show_f64 size (divisions size size 1024 0) (nth dabbrs (divisions size size 1024 0))
    ∙ ap (λ j. named show_f64 size j (nth dabbrs j)) found

power-IsUnit : (k : ℕ) → IsUnit (1024 ^ suc k) k
power-IsUnit k =
    (omega arith, inr (ground (arith, pow-suc 1024 k, one-le-pow k 1024 (omega arith))))

-- A size that is a whole power of 1024 is given as 1024 of the unit below, not as one of its own.
pub custom_size-power :
    (show_f64 : ℕ → ℕ → String) (k : ℕ)
    → custom_size show_f64 (1024 ^ suc k) 1024 dabbrs
      ≡ named show_f64 (1024 ^ suc k) k (nth dabbrs k)
custom_size-power show_f64 k = custom_size_lem show_f64 (1024 ^ suc k) k (power-IsUnit k)
