-- ===== src/Rustjail/Environment/Laws.antt =====
-- Which variables a process starts with (`do_exec` of rustjail/src/container.rs).
use Prim.Native.Char.{code}
use Prim.Native.String.{◌++◌}
use Prim.Native.String.append
use kata_rust_agent.Base.{
  ℕ, String, true, false, Option, none, some, All, List, [], ◌∷◌, map, any, ◌==◌, str_eq,
  if◌then◌else◌, ◌≡◌, refl, ap, ◌∙◌, arith, Bool-cases, Option-cases, inl, inr,
}
use kata_rust_agent.Base.Dict.{Dict, get, put, remove, get-put, get-remove}
use kata_rust_agent.Base.Text.{split, push_head}
use kata_rust_agent.Base.Exec.{Outcome, ok, err, panic}
use kata_rust_agent.Rustjail.Environment.{
  equals, has_char, set_var, set_pieces, set_vars, remove_vars, exec_env,
}

-- an entry as a specification has it
abbrev pub entry : String × String → String
entry (key, value) = key ++ "=" ++ value

-- a value up to its first `=`
abbrev pub cut : String → String
cut String.[] = ""
cut (String.◌∷◌ c s) = let rest = cut s in if code c == equals then "" else String.◌∷◌ c rest

-- the last value that the list gives a variable, up to its first `=`
abbrev pub last_value : String → Dict String → Option String
last_value j [] = none
last_value j ((key, value) ∷ vars) = elim (last_value j vars) [
  | some v ↦ some v
  | none ↦ if str_eq key j then some (cut value) else none
]

abbrev pub IsVar : String × String → Type 0
IsVar (key, value) =
    (str_eq key "" ≡ false)
    × (has_char equals key ≡ false)
    × (has_char 0 key ≡ false)
    × (has_char 0 value ≡ false)

split-cut : (v : String) → (more : List String) × (split equals v ≡ cut v ∷ more)
unfolding split
split-cut String.[] = ([], refl)
split-cut (String.◌∷◌ c s) =
    let (more, e) = split-cut s in
    elim (Bool-cases (code c == equals)) [
      | inl here ↦ (split equals s, rw here refl)
      | inr other ↦ (more, rw other (ap (push_head c) e))
    ]

split-equals :
    (k v : String)
    → has_char equals k ≡ false
    → split equals (k ++ String.◌∷◌ "=" v) ≡ k ∷ split equals v
unfolding split has_char
split-equals String.[] v h = ap (split equals) (append.nil (String.◌∷◌ "=" v))
split-equals (String.◌∷◌ c k) v h =
    let here : (code c == equals) ≡ false = ground (arith, h) in
    ap (split equals) (append.cons c k (String.◌∷◌ "=" v))
    ∙ rw here (ap (push_head c) (split-equals k v (ground (arith, h))))

split-entry :
    (k v : String)
    → has_char equals k ≡ false
    → (more : List String) × (split equals (entry (k, v)) ≡ k ∷ cut v ∷ more)
split-entry k v h =
    let (more, e) = split-cut v in
    (
      more,
      ap (λ s. split equals (k ++ s)) (append.cons "=" "" v ∙ ap (String.◌∷◌ "=") (append.nil v))
          ∙ split-equals k v h
          ∙ ap (λ (l : List String). k ∷ l) e,
    )

has_char-cut : (n : ℕ) (v : String) → has_char n v ≡ false → has_char n (cut v) ≡ false
unfolding has_char
has_char-cut n String.[] h = refl
has_char-cut n (String.◌∷◌ c s) h = elim (Bool-cases (code c == equals)) [
  | inl here ↦ rw here refl
  | inr other ↦ rw other (ground (arith, h, has_char-cut n s (ground (arith, h))))
]

set_var-IsVar :
    (k v : String) (env : Dict String)
    → IsVar (k, v)
    → set_var k (cut v) env ≡ ok (put k (cut v) env)
unfolding set_var
set_var-IsVar k v env (named, plain, key, value) =
    rw (named, plain, key, has_char-cut 0 v value) refl

set_vars-entry :
    (k v : String) (entries : List String) (env : Dict String)
    → IsVar (k, v)
    → set_vars (entry (k, v) ∷ entries) env ≡ set_vars entries (put k (cut v) env)
unfolding set_vars set_pieces
set_vars-entry k v entries env h =
    let (more, e) = split-entry k v h.1 in
    ap
      (λ l. elim (set_pieces l env) [
        | ok env' ↦ set_vars entries env'
        | err x ↦ err x
        | panic ↦ panic
      ])
      e
    ∙ ap
        (λ (x : Outcome (Dict String)). elim x [
          | ok env' ↦ set_vars entries env'
          | err x ↦ err x
          | panic ↦ panic
        ])
        (set_var-IsVar k v env h)

-- what a variable is, given what the list gives it and what it was
abbrev or_before : Option String → Option String → Option String
or_before (some v) before = some v
or_before none before = before

or_before-none : (o : Option String) → or_before o none ≡ o
or_before-none none = refl
or_before-none (some v) = refl

set_vars-get :
    (vars : Dict String) (env : Dict String)
    → All IsVar vars
    → (env' : Dict String) × (set_vars (map entry vars) env ≡ ok env')
      × ((j : String) → get j env' ≡ or_before (last_value j vars) (get j env))
unfolding set_vars
set_vars-get [] env h = (env, refl, λ j. refl)
set_vars-get ((k, v) ∷ vars) env (one, h) =
    let (env', done, found) = set_vars-get vars (put k (cut v) env) h in
    (
      env',
      set_vars-entry k v (map entry vars) env one ∙ done,
      λ j. found j ∙ elim (Option-cases (last_value j vars)) [
        | inl later ↦ rw later (get-put k j (cut v) env ∙ ground arith)
        | inr (w, last) ↦ rw last refl
      ],
    )

remove_vars-absent :
    (keys : List String) (j : String) (env : Dict String)
    → get j env ≡ none
    → get j (remove_vars keys env) ≡ none
unfolding remove_vars
remove_vars-absent [] j env h = h
remove_vars-absent (k ∷ keys) j env h =
    remove_vars-absent keys j (remove k env) (ground (arith, get-remove k j env, h))

get-remove_vars :
    (keys : List String) (j : String) (env : Dict String)
    → any (λ k. str_eq k j) keys ≡ true
    → get j (remove_vars keys env) ≡ none
unfolding remove_vars
get-remove_vars [] j env h = absurd (ground (arith, h))
get-remove_vars (k ∷ keys) j env h = elim (Bool-cases (str_eq k j)) [
  | inl here ↦ remove_vars-absent keys j (remove k env) (ground (arith, get-remove k j env, here))
  | inr later ↦ get-remove_vars keys j (remove k env) (ground (arith, h, later))
]

get-keys :
    (m : Dict String) (j : String)
    → any (λ k. str_eq k j) (map (λ x. x.0) m) ≡ false
    → get j m ≡ none
unfolding get
get-keys [] j h = refl
get-keys ((k, v) ∷ m) j h = ground (arith, h, get-keys m j (ground (arith, h)))

remove_all : (env : Dict String) (j : String) → get j (remove_vars (map (λ x. x.0) env) env) ≡ none
remove_all env j =
    let keys = map (λ x. x.0) env in
    elim (Bool-cases (any (λ k. str_eq k j) keys)) [
      | inl there ↦ get-remove_vars keys j env there
      | inr absent ↦ remove_vars-absent keys j env (get-keys env j absent)
    ]

-- Where every entry is a name without `=` and NUL, `=` and a value without NUL, the program starts with
-- exactly the variables of the entries: each has its last value, up to the first `=` in that value,
-- and nothing is left of the agent's own environment.
pub exec_env-get :
    (vars env : Dict String)
    → All IsVar vars
    → (env' : Dict String) × (exec_env (map entry vars) env ≡ ok env')
      × ((j : String) → get j env' ≡ last_value j vars)
unfolding exec_env
exec_env-get vars env h =
    let (env', done, found) = set_vars-get vars (remove_vars (map (λ x. x.0) env) env) h in
    (
      env',
      done,
      λ j.
          found j
          ∙ ap (or_before (last_value j vars)) (remove_all env j)
          ∙ or_before-none (last_value j vars),
    )
