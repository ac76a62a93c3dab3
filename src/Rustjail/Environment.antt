-- ===== src/Rustjail/Environment.antt =====
-- The environment of a process that starts in a container (`do_exec` of rustjail/src/container.rs): the
-- variables that were there go, and those of the specification are set.
pub mod Laws
use Prim.Native.Char.{code}
use kata_rust_agent.Base.{
  ℕ, String, Bool, false, ◌||◌, List, [], ◌∷◌, map, ◌==◌, negsuc, str_eq, if◌then◌else◌,
}
use kata_rust_agent.Base.Dict.{Dict, put, remove}
use kata_rust_agent.Base.Text.{split}
use kata_rust_agent.Base.Exec.{Exec, Outcome, ok, err, panic, pure, crash, attempt, ◌>>=◌, ◌>>◌}
use kata_rust_agent.Os.{Os, leave}

-- the code of `=`
abbrev pub equals : ℕ
equals = 61

-- a text that has the character
unfoldable pub has_char : ℕ → String → Bool
has_char n String.[] = false
has_char n (String.◌∷◌ c s) = let rest = has_char n s in (code c == n) || rest

-- `env::set_var`, which panics on an empty name, on a name with `=` and on a NUL
unfoldable pub set_var : String → String → Dict String → Outcome (Dict String)
unfolding has_char put
set_var key value env =
    if str_eq key "" || has_char equals key || has_char 0 key || has_char 0 value
    then panic
    else ok (put key value env)

-- `env::set_var(v[0], v[1])`
unfoldable pub set_pieces : List String → Dict String → Outcome (Dict String)
unfolding set_var
set_pieces (key ∷ value ∷ more) env = set_var key value env
set_pieces _ env = panic

-- the loop over the entries
unfoldable pub set_vars : List String → Dict String → Outcome (Dict String)
unfolding split set_pieces
set_vars [] env = ok env
set_vars (e ∷ entries) env =
    let next = λ (env' : Dict String). set_vars entries env' in
    elim (set_pieces (split equals e) env) [ ok env' ↦ next env' | err x ↦ err x | panic ↦ panic ]

-- the loop over the variables that are there
unfoldable pub remove_vars : List String → Dict String → Dict String
unfolding remove
remove_vars [] env = env
remove_vars (key ∷ keys) env = remove_vars keys (remove key env)

-- the environment that `do_exec` starts the program in
unfoldable pub exec_env : List String → Dict String → Outcome (Dict String)
unfolding set_vars remove_vars
exec_env entries env = set_vars entries (remove_vars (map (λ x. x.0) env) env)

-- `CString::new(s).unwrap_or_default()`
abbrev pub c_string : String → String
c_string s = if has_char 0 s then "" else s

module _ ⦃os : Os⦄ where
  -- what `do_exec` makes of the outcome of `execvp`
  abbrev pub exec_failed : Outcome (Unit {0}) → Exec os.World (Unit {0})
  exec_failed (ok _) = pure tt
  exec_failed (err e) = leave (negsuc 1)
  exec_failed panic = crash

  -- `do_exec`
  unfoldable pub do_exec : String → List String → List String → Exec os.World (Unit {0})
  unfolding has_char exec_env
  do_exec path args env = do
    if has_char 0 path then crash else pure tt
    vars ← (λ w. (exec_env env (os.env_vars w), w))
    r ← attempt (os.execvp path (map c_string args) vars)
    exec_failed r
