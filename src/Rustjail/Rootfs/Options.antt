-- ===== src/Rustjail/Rootfs/Options.antt =====
-- The options of a mount of the specification (`OPTIONS`, `PROPAGATION` and `parse_mount` of
-- rustjail/src/mount.rs).
use Prim.Native.String.{◌++◌}
use kata_rust_agent.Base.{
  String, Bool, true, false, Option, none, some, List, [], ◌∷◌, ◌≡◌, refl, sym, arith, ap, ◌∙◌,
  ◌++◌ as append, inl, inr, Option-cases, if◌then◌else◌,
}
use mathlib.Core.List.{append-nil, append_assoc}
use kata_rust_agent.Base.Dict.{Dict, get}
use kata_rust_agent.Oci.{Mount}
use kata_rust_agent.Os.Flags.{
  Flag, MsFlags, no_flags, single, union, without, rec, private, shared, slave,
}
use kata_rust_agent.Mount.Options.{flag_table}

-- `PROPAGATION`
abbrev pub propagations : Dict MsFlags
propagations =
    ("shared", union (single shared) (single rec))
    ∷ ("private", union (single private) (single rec))
    ∷ ("slave", union (single slave) (single rec))
    ∷ []

-- the flags of `init_rootfs` for the whole tree
unfoldable pub propagation : String → MsFlags
unfolding get
propagation p = elim (get p propagations) [
  | none ↦ union (single rec) (single slave)
  | some f ↦ union (single rec) f
]

-- `OPTIONS` has the entries of `FLAGS` of src/mount.rs.
unfoldable pub option_flags : String → Option (Bool × MsFlags)
unfolding get
option_flags o = get o flag_table

-- the loop of `parse_mount`
abbrev pub change : Bool × MsFlags → MsFlags → MsFlags
change (clear, f) flags = if clear then without flags f else union flags f

unfoldable pub parse_loop : List String → MsFlags → List String → MsFlags × List String
unfolding option_flags
parse_loop [] flags text = (flags, text)
parse_loop (o ∷ os) flags text = elim (option_flags o) [
  | none ↦ parse_loop os flags (append text (o ∷ []))
  | some v ↦ parse_loop os (change v flags) text
]

abbrev pub join : List String → String
join [] = ""
join (w ∷ []) = w
join (w ∷ v ∷ ws) = w ++ "," ++ join (v ∷ ws)

-- `parse_mount`
unfoldable pub parse_mount : Mount → MsFlags × String
unfolding parse_loop
parse_mount m = let (flags, text) = parse_loop m.options no_flags [] in (flags, join text)

-- what one option says of a flag: nothing, set or clear
abbrev pub says : Flag → Option (Bool × MsFlags) → Option Bool
says g none = none
says g (some (clear, f)) = if f g then some (if clear then false else true) else none

-- the last option that says something
abbrev pub or_before : Option Bool → Option Bool → Option Bool
or_before none earlier = earlier
or_before (some b) earlier = some b

abbrev pub last_word : Flag → List String → Option Bool
last_word g [] = none
last_word g (o ∷ os) = or_before (last_word g os) (says g (option_flags o))

abbrev pub decided : Option Bool → Bool → Bool
decided none before = before
decided (some b) before = b

-- the options that are no flags
abbrev pub others : List String → List String
others [] = []
others (o ∷ os) = elim (option_flags o) [ none ↦ o ∷ others os | some _ ↦ others os ]

decided-or_before :
    (a b : Option Bool) (x : Bool) → decided (or_before a b) x ≡ decided a (decided b x)
decided-or_before none b x = refl
decided-or_before (some a) b x = refl

change-says :
    (g : Flag) (v : Bool × MsFlags) (flags : MsFlags)
    → change v flags g ≡ decided (says g (some v)) (flags g)
change-says g (true, f) flags = ground arith
change-says g (false, f) flags = ground arith

parse_loop-flags :
    (g : Flag) (opts : List String) (flags : MsFlags) (text : List String)
    → (parse_loop opts flags text).0 g ≡ decided (last_word g opts) (flags g)
unfolding parse_loop
parse_loop-flags g [] flags text = refl
parse_loop-flags g (o ∷ opts) flags text = elim (Option-cases (option_flags o)) [
  | inl free ↦
      rw (free, parse_loop)
        (parse_loop-flags g opts flags (append text (o ∷ []))
          ∙ sym (decided-or_before (last_word g opts) none (flags g)))
  | inr (v, known) ↦
      rw (known, parse_loop)
        (parse_loop-flags g opts (change v flags) text
          ∙ ap (decided (last_word g opts)) (change-says g v flags)
          ∙ sym (decided-or_before (last_word g opts) (says g (some v)) (flags g)))
]

parse_loop-text :
    (opts : List String) (flags : MsFlags) (text : List String)
    → (parse_loop opts flags text).1 ≡ append text (others opts)
unfolding parse_loop
parse_loop-text [] flags text = sym (append-nil text)
parse_loop-text (o ∷ opts) flags text = elim (Option-cases (option_flags o)) [
  | inl free ↦
      rw (free, parse_loop, others)
        (parse_loop-text opts flags (append text (o ∷ []))
          ∙ append_assoc text (o ∷ []) (others opts))
  | inr (v, known) ↦ rw (known, parse_loop, others) (parse_loop-text opts (change v flags) text)
]

-- A flag is set exactly if the last option that names it sets it, and the data text is the options that
-- are no flags, joined by commas.
pub parse_mount_lem :
    (m : Mount)
    → ((g : Flag) → (parse_mount m).0 g ≡ decided (last_word g m.options) false)
      × ((parse_mount m).1 ≡ join (others m.options))
unfolding parse_mount
parse_mount_lem m =
    (λ g. parse_loop-flags g m.options no_flags [], ap join (parse_loop-text m.options no_flags []))
