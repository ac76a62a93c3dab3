-- ===== src/Rustjail/Join/Laws.antt =====
-- The branches of `join_namespaces` (rustjail/src/container.rs) send and receive what Rustjail.Handshake
-- says they do.
use kata_rust_agent.Base.{ℕ, ◌+◌, Bool, true, false, List, [], ◌∷◌, ◌++◌, map, ℤ, pos, ◌≡◌, refl}
use kata_rust_agent.Base.Exec.{Exec, ok, ◌>>◌}
use kata_rust_agent.Rustjail.Handshake.{
  Plan, Message, process_id, Pipe, up, down, hooks, Phase, map_ids, apply_groups, run_prestart,
  run_poststart, make_user_ns, become_root, join_others, set_up_root, enter_root, drop_rights,
  Action, send, recv, run, spawn, parent_actions, first_actions, middle_actions, last_actions,
}
use kata_rust_agent.Rustjail.Join.{
  ParentSteps, FirstSteps, LastSteps, parent_branch, first_branch, middle_branch, last_branch,
}
use kata_rust_agent.Rustjail.Start.{announce}

-- an action as it can be seen from outside, with the number that is sent
pub data Call : Type 0 where
  sends : Pipe → ℤ → Call
  receives : Pipe → Call
  does : Phase → Call
  forks : Call

-- The process id is a number of its own, and every other message is a 0.
abbrev pub number_of : ℤ → Message → ℤ
number_of pid process_id = pid
number_of pid m = pos 0

abbrev pub call : ℤ → Action → Call
call pid (send c m) = sends c (number_of pid m)
call pid (recv c m) = receives c
call pid (run e) = does e
call pid spawn = forks

abbrev pub Log : Type 0
Log = List Call

-- how many numbers have been read
abbrev pub reads : Log → ℕ
reads [] = 0
reads (receives c ∷ log) = reads log + 1
reads (sends c n ∷ log) = reads log
reads (does e ∷ log) = reads log
reads (forks ∷ log) = reads log

-- what is read where a list of actions expects the process id, and the other number if it does not
abbrev pub id_read : (ℕ → ℤ) → ℤ → ℕ → List Action → ℤ
id_read incoming other k [] = other
id_read incoming other k (recv c process_id ∷ l) = incoming k
id_read incoming other k (recv c m ∷ l) = id_read incoming other (k + 1) l
id_read incoming other k (send c m ∷ l) = id_read incoming other k l
id_read incoming other k (run e ∷ l) = id_read incoming other k l
id_read incoming other k (spawn ∷ l) = id_read incoming other k l

abbrev note : {A : Type 0} → Call → A → Exec Log A
note c a log = (ok a, log ++ c ∷ [])

abbrev note_send : Pipe → ℤ → Exec Log (Unit {0})
note_send c n = note (sends c n) tt

-- the `k`-th read gives the `k`-th number that comes
abbrev note_read : (ℕ → ℤ) → Pipe → Exec Log ℤ
note_read incoming c log = (ok (incoming (reads log)), log ++ receives c ∷ [])

-- steps that write down what they are, for any numbers that come
abbrev pub noted_parent : (ℕ → ℤ) → ParentSteps Log
noted_parent incoming = record {
  receive = note_read incoming up;
  answer = note_send down;
  map_user_ids = note (does map_ids) tt;
  apply_cgroups = note (does apply_groups) tt;
  prestart = note (does run_prestart) tt;
  poststart = note (does run_poststart) tt;
}

abbrev pub noted_first : (ℕ → ℤ) → FirstSteps Log (Unit {0})
noted_first incoming = record {
  notify = note_send up;
  wait = note_read incoming down;
  unshare_user = note (does make_user_ns) tt;
  set_root_ids = note (does become_root) tt;
  join_all = note (does join_others) tt;
}

abbrev pub noted_last : (ℕ → ℤ) → LastSteps Log (Unit {0})
noted_last incoming = record {
  notify = note_send up;
  wait = note_read incoming down;
  wait_hooks = note_read incoming hooks;
  close_hooks = λ log. (ok tt, log);
  prepare_root = note (does set_up_root) tt;
  enter = λ r. note (does enter_root) tt;
}

abbrev pub noted_middle : (ℕ → ℤ) → ℤ → Exec Log (Unit {0})
noted_middle incoming = middle_branch (note_send up) (note_read incoming down) (note_send hooks)

-- the last branch, with what `start` does after it up to its message
abbrev pub noted_end : Plan → (ℕ → ℤ) → Exec Log (Unit {0})
noted_end p incoming =
    last_branch p (noted_last incoming)
    >> announce p.init (note (does drop_rights) tt) (note_send up)

-- Each branch, for the number `child` of the process that it has forked
abbrev pub Agrees : Plan → ℤ → (ℕ → ℤ) → Type 0
Agrees p child incoming =
    (parent_branch p (noted_parent incoming) child []
      ≡ (ok (id_read incoming child 0 (parent_actions p)), map (call child) (parent_actions p)))
    × (first_branch p (noted_first incoming) [] ≡ (ok tt, map (call child) (first_actions p)))
    × (noted_middle incoming child [] ≡ (ok tt, map (call child) middle_actions))
    × (noted_end p incoming [] ≡ (ok tt, map (call child) (last_actions p)))

agree :
    (init pidns userns : Bool) (child : ℤ) (incoming : ℕ → ℤ)
    → Agrees (record { init = init; pidns = pidns; userns = userns }) child incoming
unfolding parent_branch first_branch middle_branch last_branch parent_actions first_actions
    middle_actions last_actions announce
agree false false false child incoming = (refl, refl, refl, refl)
agree false false true child incoming = (refl, refl, refl, refl)
agree false true false child incoming = (refl, refl, refl, refl)
agree false true true child incoming = (refl, refl, refl, refl)
agree true false false child incoming = (refl, refl, refl, refl)
agree true false true child incoming = (refl, refl, refl, refl)
agree true true false child incoming = (refl, refl, refl, refl)
agree true true true child incoming = (refl, refl, refl, refl)

-- Each branch sends, receives and does exactly what its list of actions says, in that order, whatever
-- numbers come: the message with the process id carries the number of the process that the sender has
-- forked, and every other one a 0. The number that the agent keeps is the one it reads where its list
-- expects the process id, and its own child's where it expects none.
pub branches-actions : (p : Plan) (child : ℤ) (incoming : ℕ → ℤ) → Agrees p child incoming
branches-actions p child incoming = agree p.init p.pidns p.userns child incoming
