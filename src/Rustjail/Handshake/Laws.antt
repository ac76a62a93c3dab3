-- ===== src/Rustjail/Handshake/Laws.antt =====
-- What every run of the processes that start a container comes to: no read takes a message for another,
-- none waits for ever, and the phases follow each other as they have to.
use kata_rust_agent.Base.{
  ℕ, ◌<◌, ◌≤◌, Bool, true, false, not, ◌&&◌, ◌||◌, List, [], ◌∷◌, ◌++◌, all, ◌≡◌, ◌⊎◌, inl, inr,
  refl, arith, Bool-cases, if◌then◌else◌,
}
use kata_rust_agent.Rustjail.Handshake.{
  Plan, Phase, map_ids, apply_groups, run_prestart, run_poststart, become_root, join_others,
  set_up_root, enter_root, drop_rights, System, Step, Run, begin, is_done, is_matched, is_pending,
}
use kata_rust_agent.Rustjail.Handshake.Search.{is_some, is_some-next, next, search, search-Run}

-- pairs of phases of which the first is to be over before the second is
abbrev pub orders : Plan → List (Phase × Phase)
orders p =
    (apply_groups, join_others) ∷ (if p.userns then (map_ids, become_root) ∷ [] else [])
    ++ (if p.init
        then (set_up_root, run_prestart)
          ∷ (run_prestart, enter_root)
          ∷ (drop_rights, run_poststart)
          ∷ []
        else [])

abbrev pub is_ordered : Plan → System → Phase × Phase → Bool
is_ordered p s (e, f) = not (is_pending p s e) || is_pending p s f

-- the process moves on, or all are through
abbrev pub is_live : Plan → System → Bool
is_live p s = is_done s || is_some (next p s)

abbrev is_good : Plan → System → Bool
is_good p s = is_live p s && is_matched s && all (is_ordered p s) (orders p)

search_all :
    (init pidns userns : Bool)
    → let p : Plan = record { init = init; pidns = pidns; userns = userns } in
      search 29 p (is_good p) (begin p) ≡ true
unfolding search is_done is_matched is_pending begin next
search_all false false false = refl
search_all false false true = refl
search_all false true false = refl
search_all false true true = refl
search_all true false false = refl
search_all true false true = refl
search_all true true false = refl
search_all true true true = refl

Run-is_good :
    (p : Plan) (k : ℕ) (t : System) → Run p k (begin p) t → (is_good p t ≡ true) × (k < 29)
Run-is_good p k t r =
    search-Run 29 k p (is_good p) (begin p) t (search_all p.init p.pidns p.userns) r

-- However the processes are interleaved, a read that finds a number finds the one that it takes it for:
-- the process id that the agent keeps is never a 0 that was meant to wake it, and no process takes
-- what was sent to another.
pub Run-is_matched : (p : Plan) (k : ℕ) (t : System) → Run p k (begin p) t → is_matched t ≡ true
Run-is_matched p k t r = ground (arith, Run-is_good p k t r)

-- However the processes are interleaved, all come through after at most 28 steps: until then some
-- process has a step.
pub Run-ends :
    (p : Plan) (k : ℕ) (t : System)
    → Run p k (begin p) t
    → (k ≤ 28) × ((is_done t ≡ true) ⊎ ((u : System) × Step p t u))
Run-ends p k t r =
    let (good, few) = Run-is_good p k t r in
    (
      omega (arith, few),
      elim (Bool-cases (is_done t)) [
        | inl done ↦ inl done
        | inr more ↦ inr (is_some-next p t (ground (arith, good, more)))
      ],
    )

-- However the processes are interleaved, the cgroups are applied before the child joins namespaces,
-- the ids are mapped before it becomes root, the prestart hooks run when the root file system is set up
-- and before it is entered, and the poststart hooks when the rights are dropped.
pub Run-is_ordered :
    (p : Plan) (k : ℕ) (t : System) → Run p k (begin p) t → all (is_ordered p t) (orders p) ≡ true
Run-is_ordered p k t r = ground (arith, Run-is_good p k t r)
