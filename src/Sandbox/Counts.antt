-- ===== src/Sandbox/Counts.antt =====
-- The reference counts of the sandbox storages: after any calls of `set_sandbox_storage` and
-- `unset_sandbox_storage` the table holds for each path the calls that set it less those that unset
-- it.
use kata_rust_agent.Base.{
  ℕ, suc, ◌+◌, ◌-◌, ◌<◌, ◌≤◌, String, ◌≡◌, refl, Option, none, some, List, [], ◌∷◌, length, ap, sym,
  ◌∙◌, ltb, ◌==◌, str_eq, eq_iff, arith, if◌then◌else◌, Option-cases, inl, inr,
}
use kata_rust_agent.Base.Dict.{get, put, get-put, get-remove}
use kata_rust_agent.Sandbox.{
  Sandbox, set_sandbox_storage, unset_sandbox_storage, u32_mod, inc32, dec32,
}

-- The number of references to a path.
abbrev pub count_of : Option ℕ → ℕ
count_of none = 0
count_of (some n) = n

abbrev pub refs : Sandbox → String → ℕ
refs s path = count_of (get path s.storages)

-- Every count in the table is positive and a `u32`.
pub record IsCounted (s : Sandbox) : Type 0 where
  pub at_path : (path : String) (n : ℕ) → get path s.storages ≡ some n → (1 ≤ n) × (n < u32_mod)

-- Setting a storage raises its count by one, leaves all others, and tells whether it was absent.
pub set_lem :
    (s : Sandbox) (p q : String)
    → IsCounted s
    → refs s p + 1 < u32_mod
    → (refs (set_sandbox_storage p s).1 q ≡ (if str_eq p q then refs s p + 1 else refs s q))
      × ((set_sandbox_storage p s).0 ≡ (refs s p == 0))
unfolding set_sandbox_storage
set_lem s p q h room = elim (Option-cases (get p s.storages)) [
  | inl e ↦ ground (arith, get-put p q 1 s.storages, e)
  | inr (n, e) ↦ ground (arith, get-put p q (inc32 n) s.storages, e, h.at_path p n e)
]

-- Unsetting a storage lowers its count by one, forgets it when none is left, leaves all others, and
-- tells whether it was present.
pub unset_lem :
    (s : Sandbox) (p q : String)
    → IsCounted s
    → (refs (unset_sandbox_storage p s).1 q ≡ (if str_eq p q then refs s p - 1 else refs s q))
      × ((unset_sandbox_storage p s).0 ≡ ltb 0 (refs s p))
unfolding unset_sandbox_storage
unset_lem s p q h = elim (Option-cases (get p s.storages)) [
  | inl e ↦ ground (arith, e, eq_iff p q)
  | inr (n, e) ↦ ground (
    arith,
    get-put p q (dec32 n) s.storages,
    get-remove p q (put p (dec32 n) s.storages),
    e,
    h.at_path p n e,
  )
]

pub set-IsCounted :
    (s : Sandbox) (p : String)
    → IsCounted s
    → refs s p + 1 < u32_mod
    → IsCounted (set_sandbox_storage p s).1
unfolding set_sandbox_storage
set-IsCounted s p h room = record {
  at_path = λ q n e. elim (Option-cases (get p s.storages)) [
    | inl a ↦ ground (arith, get-put p q 1 s.storages, a, h.at_path q n)
    | inr (m, a) ↦
        ground (arith, get-put p q (inc32 m) s.storages, a, h.at_path p m a, h.at_path q n)
  ];
}

pub unset-IsCounted :
    (s : Sandbox) (p : String) → IsCounted s → IsCounted (unset_sandbox_storage p s).1
unfolding unset_sandbox_storage
unset-IsCounted s p h = record {
  at_path = λ q n e. elim (Option-cases (get p s.storages)) [
    | inl a ↦ ground (arith, a, h.at_path q n)
    | inr (m, a) ↦ ground (
      arith,
      get-put p q (dec32 m) s.storages,
      get-remove p q (put p (dec32 m) s.storages),
      a,
      h.at_path p m a,
      h.at_path q n,
    )
  ];
}

-- A container that starts to use a storage, and one that stops.
pub data Call : Type 0 where
  set_call unset_call : String → Call

abbrev pub step : Call → Sandbox → Sandbox
step (set_call p) s = (set_sandbox_storage p s).1
step (unset_call p) s = (unset_sandbox_storage p s).1

unfoldable pub run : List Call → Sandbox → Sandbox
run [] s = s
run (c ∷ cs) s = run cs (step c s)

-- The users of `q` after the calls, from `n` before them.
abbrev pub users : String → List Call → ℕ → ℕ
users q [] n = n
users q (set_call p ∷ cs) n = users q cs (if str_eq p q then n + 1 else n)
users q (unset_call p ∷ cs) n = users q cs (if str_eq p q then n - 1 else n)

abbrev pub HasRoom : ℕ → Sandbox → Type 0
HasRoom k s = (q : String) → refs s q + k < u32_mod

users-step :
    (c : Call) (s : Sandbox) (q : String) (k : ℕ)
    → IsCounted s
    → HasRoom (suc k) s
    → (refs (step c s) q ≡ users q (c ∷ []) (refs s q)) × (refs (step c s) q + k < u32_mod)
users-step (set_call p) s q k h room = ground (arith, set_lem s p q h, room p, room q, eq_iff p q)
users-step (unset_call p) s q k h room = ground (arith, unset_lem s p q h, room q, eq_iff p q)

users-cons :
    (c : Call) (cs : List Call) (q : String) (n : ℕ)
    → users q (c ∷ cs) n ≡ users q cs (users q (c ∷ []) n)
users-cons (set_call p) cs q n = refl
users-cons (unset_call p) cs q n = refl

step-IsCounted :
    (c : Call) (s : Sandbox) (k : ℕ) → IsCounted s → HasRoom (suc k) s → IsCounted (step c s)
step-IsCounted (set_call p) s k h room = set-IsCounted s p h (omega (arith, room p))
step-IsCounted (unset_call p) s k h room = unset-IsCounted s p h

-- From a sandbox whose counts are positive and leave room for as many more references as there are
-- calls, any calls that set and unset storages end with each path's count the number of its users,
-- and again with every count in the table positive.
pub run-users :
    (cs : List Call) (s : Sandbox) (q : String)
    → IsCounted s
    → HasRoom (length cs) s
    → (refs (run cs s) q ≡ users q cs (refs s q)) × IsCounted (run cs s)
unfolding run
run-users [] s q h room = (refl, h)
run-users (c ∷ cs) s q h room =
    let h' = step-IsCounted c s (length cs) h room in
    let room' : HasRoom (length cs) (step c s) = λ p. (users-step c s p (length cs) h room).1 in
    let rest = run-users cs (step c s) q h' room' in
    (
      rest.0
          ∙ ap (users q cs) (users-step c s q (length cs) h room).0
          ∙ sym (users-cons c cs q (refs s q)),
      rest.1,
    )
