-- ===== src/Mount/Options/Laws.antt =====
-- What the parsed mount options are: the union of the known options' flags, and the unknown options
-- joined by commas in their order.
use Prim.Native.String.{◌++◌}
use text.Mathlib.TextLemmas.{append_assoc, append-nil, append-eq-nil_iff}
use kata_rust_agent.Base.{
  String, ◌≡◌, ◌≢◌, refl, sym, ap, ◌∙◌, Bool, true, false, ◌||◌, none, some, List, [], ◌∷◌,
  ◌++◌ as append, str_eq, eq_iff, arith, if◌then◌else◌, Bool-cases, Option-cases, inl, inr,
}
use kata_rust_agent.Os.Flags.{MsFlags, Flag, no_flags, union, rdonly}
use kata_rust_agent.Mount.Options.{
  known_flags, push_option, add_option, parse_from, parse_mount_flags_and_options,
}

-- Whether an option stands for a set with this flag in it, set or cleared.
abbrev pub names_flag : Flag → String → Bool
names_flag g opt =
    if str_eq opt "" then false else elim (known_flags opt) [ none ↦ false | some (clear, f) ↦ f g ]

abbrev pub any_names : Flag → List String → Bool
any_names g [] = false
any_names g (opt ∷ opts) = names_flag g opt || any_names g opts

-- The options that are passed on as text.
abbrev pub unknown : List String → List String
unknown [] = []
unknown (opt ∷ opts) =
    if str_eq opt ""
    then unknown opts
    else elim (known_flags opt) [ none ↦ opt ∷ unknown opts | some _ ↦ unknown opts ]

-- Texts joined by commas: the first, and each other after a comma.
abbrev pub after_commas : List String → String
after_commas [] = ""
after_commas (w ∷ ws) = "," ++ (w ++ after_commas ws)

abbrev pub join : List String → String
join [] = ""
join (w ∷ ws) = w ++ after_commas ws

add_option_empty :
    (opt : String) (acc : MsFlags × String) → str_eq opt "" ≡ true → add_option opt acc ≡ acc
unfolding add_option
add_option_empty opt acc e = rw (e, add_option) refl

add_option_unknown :
    (opt : String) (acc : MsFlags × String)
    → str_eq opt "" ≡ false
    → known_flags opt ≡ none
    → add_option opt acc ≡ (acc.0, push_option acc.1 opt)
unfolding add_option
add_option_unknown opt acc e k = rw (e, k, add_option) refl

add_option_known :
    (opt : String) (acc : MsFlags × String) (x : Bool × MsFlags)
    → str_eq opt "" ≡ false
    → known_flags opt ≡ some x
    → add_option opt acc ≡ (union acc.0 x.1, acc.1)
unfolding add_option
add_option_known opt acc x e k = rw (e, k, add_option) refl

flags-add_option :
    (opt : String) (acc : MsFlags × String) (g : Flag)
    → (add_option opt acc).0 g ≡ (acc.0 g || names_flag g opt)
unfolding add_option
flags-add_option opt acc g = elim (Bool-cases (str_eq opt "")) [
  | inl e ↦ rw (e, add_option) (ground arith)
  | inr e ↦ elim (Option-cases (known_flags opt)) [
    | inl k ↦ rw (e, k, add_option) (ground arith)
    | inr (x, k) ↦ rw (e, k, add_option) refl
  ]
]

-- A flag is set exactly if one of the options names it, whatever that option says about clearing.
pub flags-parse_from :
    (opts : List String) (acc : MsFlags × String) (g : Flag)
    → (parse_from opts acc).0 g ≡ (acc.0 g || any_names g opts)
unfolding parse_from
flags-parse_from [] acc g = ground arith
flags-parse_from (opt ∷ opts) acc g =
    flags-parse_from opts (add_option opt acc) g ∙ ground (arith, flags-add_option opt acc g)

-- what the loop appends to a text that is not empty
text-push_option :
    (w : String) (ws : List String) (t : String)
    → t ≢ ""
    → (push_option t w ++ after_commas ws ≡ t ++ after_commas (w ∷ ws)) × (push_option t w ≢ "")
unfolding push_option
text-push_option w ws t h = elim (Bool-cases (str_eq t "")) [
  | inl e ↦ absurd (h ((eq_iff t "").0 e))
  | inr e ↦ rw e (
    append_assoc t ("," ++ w) (after_commas ws)
        ∙ ap (λ x. t ++ x) (append_assoc "," w (after_commas ws)),
    λ q. h (append-eq-nil_iff.0 q).0,
  )
]

-- one round of the loop, once its step is known
text-parse_step :
    (opt : String) (opts : List String) (acc acc' : MsFlags × String)
    → add_option opt acc ≡ acc'
    → (parse_from (opt ∷ opts) acc).1 ≡ (parse_from opts acc').1
unfolding parse_from
text-parse_step opt opts acc acc' e = ap (λ (x : MsFlags × String). (parse_from opts x).1) e

text-parse_nonempty :
    (opts : List String) (flags : MsFlags) (t : String)
    → t ≢ ""
    → (parse_from opts (flags, t)).1 ≡ t ++ after_commas (unknown opts)
text-parse_nonempty [] flags t h = unfold parse_from in sym (append-nil t)
text-parse_nonempty (opt ∷ opts) flags t h = elim (Bool-cases (str_eq opt "")) [
  | inl e ↦
      text-parse_step opt opts (flags, t) (flags, t) (add_option_empty opt (flags, t) e)
      ∙ rw e (text-parse_nonempty opts flags t h)
  | inr e ↦ elim (Option-cases (known_flags opt)) [
    | inl k ↦
        text-parse_step opt opts (flags, t) (flags, push_option t opt)
          (add_option_unknown opt (flags, t) e k)
        ∙ rw (e, k)
            (text-parse_nonempty opts flags (push_option t opt) (text-push_option opt [] t h).1
              ∙ (text-push_option opt (unknown opts) t h).0)
    | inr (x, k) ↦
        text-parse_step opt opts (flags, t) (union flags x.1, t)
          (add_option_known opt (flags, t) x e k)
        ∙ rw (e, k) (text-parse_nonempty opts (union flags x.1) t h)
  ]
]

text-parse_empty :
    (opts : List String) (flags : MsFlags) → (parse_from opts (flags, "")).1 ≡ join (unknown opts)
text-parse_empty [] flags = unfold parse_from in refl
text-parse_empty (opt ∷ opts) flags = elim (Bool-cases (str_eq opt "")) [
  | inl e ↦
      text-parse_step opt opts (flags, "") (flags, "") (add_option_empty opt (flags, "") e)
      ∙ rw e (text-parse_empty opts flags)
  | inr e ↦ elim (Option-cases (known_flags opt)) [
    | inl k ↦
        text-parse_step opt opts (flags, "") (flags, opt)
          (add_option_unknown opt (flags, "") e k ∙ (unfold push_option in refl))
        ∙ rw (e, k) (text-parse_nonempty opts flags opt (λ q. cc (e, (eq_iff opt "").1 q)))
    | inr (x, k) ↦
        text-parse_step opt opts (flags, "") (union flags x.1, "")
          (add_option_known opt (flags, "") x e k)
        ∙ rw (e, k) (text-parse_empty opts (union flags x.1))
  ]
]

-- The flags are those that some option names, also where the option is to clear them, and the data
-- text is the options that are not in the table and not empty, in their order, joined by commas.
pub parse_mount_flags_and_options_lem :
    (opts : List String) (g : Flag)
    → ((parse_mount_flags_and_options opts).0 g ≡ any_names g opts)
      × ((parse_mount_flags_and_options opts).1 ≡ join (unknown opts))
unfolding parse_mount_flags_and_options
parse_mount_flags_and_options_lem opts g =
    (flags-parse_from opts (no_flags, "") g, text-parse_empty opts no_flags)

any_names-middle :
    (before after : List String) (opt : String) (g : Flag)
    → names_flag g opt ≡ true
    → any_names g (append before (opt ∷ after)) ≡ true
any_names-middle [] after opt g h = ground (arith, h)
any_names-middle (o ∷ before) after opt g h = ground (arith, any_names-middle before after opt g h)

-- An option list with "rw" in it asks for a read-only mount: the flag that "rw" should clear is set.
pub rw_sets_rdonly :
    (before after : List String)
    → (parse_mount_flags_and_options (append before ("rw" ∷ after))).0 rdonly ≡ true
rw_sets_rdonly before after =
    (parse_mount_flags_and_options_lem (append before ("rw" ∷ after)) rdonly).0
    ∙ any_names-middle before after "rw" rdonly (unfold known_flags in refl)
