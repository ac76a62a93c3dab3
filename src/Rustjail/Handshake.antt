-- ===== src/Rustjail/Handshake.antt =====
-- How the processes that start a container wait for each other (`join_namespaces` and `start` of
-- rustjail/src/container.rs): the agent, its child, and, where there is a pid namespace, the child's
-- child, which becomes the container's process. They send each other numbers through three pipes. Here
-- a process is the list of what it still has to do, and the system of processes moves by one action
-- of one of them.
pub mod Search
pub mod Laws
use kata_rust_agent.Base.{
  ℕ, Bool, ◌&&◌, ◌||◌, Option, none, some, List, [], ◌∷◌, ◌++◌, any, ◌==◌, if◌then◌else◌, ◌≡◌,
}

-- `p.init`, `pidns` and `userns`
pub record Plan : Type 0 where
  pub init : Bool
  pub pidns : Bool
  pub userns : Bool

-- The three pipes: `up` is from `cfd` to `pfd`, `down` from `pwfd` to `crfd`, `hooks` from `phfd` to
-- `chfd`.
pub data Pipe : Type 0 where
  up down hooks : Pipe

-- What a number that is sent means: all but the process id are 0 in the code.
pub data Message : Type 0 where
  user_ns_made ids_mapped process_id process_id_read resume root_set_up prestart_run ready : Message

pub data Phase : Type 0 where
  map_ids apply_groups run_prestart run_poststart : Phase
  make_user_ns become_root join_others : Phase
  set_up_root enter_root drop_rights : Phase

-- `recv` names the message that the code takes the number for.
pub data Action : Type 0 where
  send : Pipe → Message → Action
  recv : Pipe → Message → Action
  run : Phase → Action
  spawn : Action

abbrev pub when : Bool → List Action → List Action
when b l = if b then l else []

-- the branch of the agent
unfoldable pub parent_actions : Plan → List Action
parent_actions p =
    recv up user_ns_made ∷ when p.userns (run map_ids ∷ [])
    ++ (run apply_groups
          ∷ send down ids_mapped
          ∷ when p.pidns (recv up process_id ∷ send down process_id_read ∷ [])
        ++ when p.init (
            recv up root_set_up
            ∷ run run_prestart
            ∷ send down prestart_run
            ∷ recv up ready
            ∷ run run_poststart
            ∷ []))

-- the branch of the child, up to its own fork
unfoldable pub first_actions : Plan → List Action
first_actions p =
    when p.userns (run make_user_ns ∷ [])
    ++ (send up user_ns_made ∷ recv down ids_mapped ∷ when p.userns (run become_root ∷ [])
        ++ run join_others ∷ [])

-- the child after that fork
unfoldable pub middle_actions : List Action
middle_actions = send up process_id ∷ recv down process_id_read ∷ send hooks resume ∷ []

-- the process that becomes the container's, the child's child or the child itself
unfoldable pub last_actions : Plan → List Action
last_actions p =
    run set_up_root ∷ when p.pidns (recv hooks resume ∷ [])
    ++ (when p.init (send up root_set_up ∷ recv down prestart_run ∷ [])
        ++ run enter_root ∷ run drop_rights ∷ when p.init (send up ready ∷ []))

unfoldable pub child_actions : Plan → List Action
unfolding first_actions middle_actions last_actions
child_actions p = first_actions p ++ (if p.pidns then spawn ∷ middle_actions else last_actions p)

-- what each process has still to do, and what is in the pipes
pub record System : Type 0 where
  pub parent : List Action
  pub child : List Action
  pub last : List Action
  pub in_up : List Message
  pub in_down : List Message
  pub in_hooks : List Message

abbrev pub contents : Pipe → System → List Message
contents up s = s.in_up
contents down s = s.in_down
contents hooks s = s.in_hooks

abbrev pub with_contents : Pipe → List Message → System → System
with_contents up l s = record s { in_up = l }
with_contents down l s = record s { in_down = l }
with_contents hooks l s = record s { in_hooks = l }

-- the system before anything has happened
unfoldable pub begin : Plan → System
unfolding parent_actions child_actions
begin p = record {
  parent = parent_actions p;
  child = child_actions p;
  last = [];
  in_up = [];
  in_down = [];
  in_hooks = [];
}

-- a read takes whatever comes first, and waits where there is nothing
abbrev pub take : Pipe → System → List Message → Option System
take c s [] = none
take c s (m ∷ l) = some (with_contents c l s)

abbrev pub act : Plan → Action → System → Option System
act p (send c m) s = some (with_contents c (contents c s ++ m ∷ []) s)
act p (recv c m) s = take c s (contents c s)
act p (run e) s = some s
act p spawn s = some (record s { last = last_actions p })

abbrev pub move : Plan → List Action → (List Action → System) → Option System
move p [] s = none
move p (a ∷ rest) s = act p a (s rest)

unfoldable pub move_parent : Plan → System → Option System
unfolding last_actions
move_parent p s = move p s.parent (λ l. record s { parent = l })

unfoldable pub move_child : Plan → System → Option System
unfolding last_actions
move_child p s = move p s.child (λ l. record s { child = l })

unfoldable pub move_last : Plan → System → Option System
unfolding last_actions
move_last p s = move p s.last (λ l. record s { last = l })

-- One action of one process; which one moves is open.
pub data Step (p : Plan) (s t : System) : Type 0 where
  parent_moves : move_parent p s ≡ some t → Step p s t
  child_moves : move_child p s ≡ some t → Step p s t
  last_moves : move_last p s ≡ some t → Step p s t

-- a run of so many steps
pub data Run (p : Plan) : ℕ → System → System → Type 0 where
  stop : {s : System} → Run p 0 s s
  go : {n : ℕ} {s t u : System} → Step p s t → Run p n t u → Run p (ℕ.suc n) s u

-- every process has come through
abbrev pub is_end : List Action → Bool
is_end [] = Bool.true
is_end (a ∷ l) = Bool.false

unfoldable pub is_done : System → Bool
is_done s = is_end s.parent && is_end s.child && is_end s.last

abbrev pub message_number : Message → ℕ
message_number user_ns_made = 0
message_number ids_mapped = 1
message_number process_id = 2
message_number process_id_read = 3
message_number resume = 4
message_number root_set_up = 5
message_number prestart_run = 6
message_number ready = 7

-- The next read of a process finds nothing yet, or the message that it takes the number for.
abbrev pub is_first : Message → List Message → Bool
is_first m [] = Bool.true
is_first m (n ∷ l) = message_number m == message_number n

abbrev pub is_expected : List Action → System → Bool
is_expected (recv c m ∷ l) s = is_first m (contents c s)
is_expected _ s = Bool.true

unfoldable pub is_matched : System → Bool
is_matched s = is_expected s.parent s && is_expected s.child s && is_expected s.last s

abbrev pub phase_number : Phase → ℕ
phase_number map_ids = 0
phase_number apply_groups = 1
phase_number run_prestart = 2
phase_number run_poststart = 3
phase_number make_user_ns = 4
phase_number become_root = 5
phase_number join_others = 6
phase_number set_up_root = 7
phase_number enter_root = 8
phase_number drop_rights = 9

abbrev pub is_run : Phase → Action → Bool
is_run e (run f) = phase_number e == phase_number f
is_run e _ = Bool.false

abbrev pub is_spawn : Action → Bool
is_spawn spawn = Bool.true
is_spawn _ = Bool.false

-- the phase is still to come, in a process that there is or that is still to be made
unfoldable pub is_pending : Plan → System → Phase → Bool
unfolding last_actions
is_pending p s e =
    any (is_run e) s.parent
    || any (is_run e) s.child
    || any (is_run e) s.last
    || (any is_spawn s.child && any (is_run e) (last_actions p))
