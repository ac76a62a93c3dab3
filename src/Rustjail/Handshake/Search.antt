-- ===== src/Rustjail/Handshake/Search.antt =====
-- A search through every run of the processes that start a container. What it finds to hold of each
-- system that it comes to holds after every run, and no run is longer than the search is deep.
use kata_rust_agent.Base.{
  ℕ, zero, suc, ◌<◌, Bool, true, false, ◌&&◌, Option, none, some, List, [], ◌∷◌, all, ◌≡◌, inl, inr,
  arith, Option-cases,
}
use mathlib.Core.Path.{subst}
use kata_rust_agent.Rustjail.Handshake.{
  Plan, System, Step, parent_moves, child_moves, last_moves, Run, stop, go, move_parent, move_child,
  move_last,
}

-- the systems that one step leads to
abbrev pub found : Option System → List System → List System
found none l = l
found (some s) l = s ∷ l

unfoldable pub next : Plan → System → List System
unfolding move_parent move_child move_last
next p s = found (move_parent p s) (found (move_child p s) (found (move_last p s) []))

unfoldable pub search : ℕ → Plan → (System → Bool) → System → Bool
unfolding next
search zero p good s = false
search (suc n) p good s =
    let deeper = λ (t : System). search n p good t in good s && all deeper (next p s)

all-found_here :
    (f : System → Bool) (o : Option System) (l : List System) (t : System)
    → o ≡ some t
    → all f (found o l) ≡ true
    → f t ≡ true
all-found_here f none l t e h = absurd (ground (arith, e))
all-found_here f (some s) l t e h =
    let same : s ≡ t = ground (arith, e) in subst (λ u. f u ≡ true) same (ground (arith, h))

all-found_later :
    (f : System → Bool) (o : Option System) (l : List System)
    → all f (found o l) ≡ true
    → all f l ≡ true
all-found_later f none l h = h
all-found_later f (some s) l h = ground (arith, h)

all-next :
    (p : Plan) (f : System → Bool) (s t : System)
    → all f (next p s) ≡ true
    → Step p s t
    → f t ≡ true
unfolding next
all-next p f s t h (parent_moves e) = all-found_here f (move_parent p s) _ t e h
all-next p f s t h (child_moves e) =
    all-found_here f (move_child p s) _ t e (all-found_later f (move_parent p s) _ h)
all-next p f s t h (last_moves e) =
    all-found_here f (move_last p s) [] t e
      (all-found_later f (move_child p s) _ (all-found_later f (move_parent p s) _ h))

-- the search holds at the first system, and one level less deep after a step
search_after :
    (n : ℕ) (p : Plan) (good : System → Bool) (s t : System)
    → search (suc n) p good s ≡ true
    → Step p s t
    → search n p good t ≡ true
unfolding search
search_after n p good s t h step = all-next p (λ u. search n p good u) s t (ground (arith, h)) step

pub search-Run :
    (n k : ℕ) (p : Plan) (good : System → Bool) (s t : System)
    → search n p good s ≡ true
    → Run p k s t
    → (good t ≡ true) × (k < n)
unfolding search
search-Run zero k p good s t h r = absurd (ground (arith, h))
search-Run (suc n) k p good s _ h stop = (ground (arith, h), omega arith)
search-Run (suc n) (suc k) p good s t h (go {t = u} step r) =
    let (here, fewer) = search-Run n k p good u t (search_after n p good s u h step) r in
    (here, omega (arith, fewer))

-- A system that leads somewhere has a step.
abbrev pub is_some : List System → Bool
is_some [] = false
is_some (s ∷ l) = true

pub is_some-next : (p : Plan) (s : System) → is_some (next p s) ≡ true → (t : System) × Step p s t
unfolding next
is_some-next p s h = elim (Option-cases (move_parent p s)) [
  | inr (t, e) ↦ (t, parent_moves e)
  | inl stuck ↦ elim (Option-cases (move_child p s)) [
    | inr (t, e) ↦ (t, child_moves e)
    | inl stuck' ↦ elim (Option-cases (move_last p s)) [
      | inr (t, e) ↦ (t, last_moves e)
      | inl stuck'' ↦ absurd (ground (arith, rw (stuck, stuck', stuck'') at h))
    ]
  ]
]
