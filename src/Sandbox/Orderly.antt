-- ===== src/Sandbox/Orderly.antt =====
-- The order that the sandbox keeps: a container is filed under its own id, and a process under its own
-- number.
pub mod Methods
pub mod Removal
pub mod Service
pub mod Requests
pub mod Create
pub mod State
use kata_rust_agent.Base.{
  ℕ, String, Bool, true, false, Option, none, some, List, [], ◌∷◌, All, ℤ, eq_ℤ, eq_ℤ_iff, str_eq,
  eq_iff, if◌then◌else◌, ◌≡◌, refl, sym, ap, ◌∙◌, arith, Bool-cases, inl, inr,
}
use mathlib.Core.Path.{subst}
use kata_rust_agent.Base.Dict.{Dict, get, put, remove}
use kata_rust_agent.Rustjail.Process.{Process, Processes, get_pid, put_pid, update_pid, remove_pid}
use kata_rust_agent.Rustjail.Container.{LinuxContainer, get_process}
use kata_rust_agent.Sandbox.{Sandbox}

abbrev pub IsNumbered : ℤ × Process → Type 0
IsNumbered (pid, p) = p.pid ≡ pid

abbrev pub IsFiled : String × LinuxContainer → Type 0
IsFiled (id, c) = (c.id ≡ id) × All IsNumbered c.processes

abbrev pub IsOrderly : Sandbox → Type 0
IsOrderly s = All IsFiled s.containers

pub All-get_pid :
    (pid : ℤ) (p : Process) (m : Processes)
    → All IsNumbered m
    → get_pid pid m ≡ some p
    → p.pid ≡ pid
unfolding get_pid
All-get_pid pid p [] h e = absurd (ground (arith, e))
All-get_pid pid p ((q, r) ∷ m) (here, rest) e = elim (Bool-cases (eq_ℤ q pid)) [
  | inl same ↦
      let found : r ≡ p = ground (arith, e, same) in
      ap (λ (x : Process). x.pid) (sym found) ∙ here ∙ (eq_ℤ_iff q pid).0 same
  | inr other ↦ All-get_pid pid p m rest (rw other at e)
]

pub All-get_process :
    (eid : String) (pid : ℤ) (p : Process) (m : Processes)
    → All IsNumbered m
    → get_process eid m ≡ some (pid, p)
    → p.pid ≡ pid
unfolding get_process
All-get_process eid pid p [] h e = absurd (ground (arith, e))
All-get_process eid pid p ((q, r) ∷ m) (here, rest) e = elim (Bool-cases (str_eq eid r.exec_id)) [
  | inl same ↦
      let found : Path (Option (ℤ × Process)) (some (q, r)) (some (pid, p)) = rw same at e in
      let entry : Path (ℤ × Process) (q, r) (pid, p) = ground (arith, found) in
      subst IsNumbered entry here
  | inr other ↦ All-get_process eid pid p m rest (rw other at e)
]

pub All-put_pid :
    (pid : ℤ) (p : Process) (m : Processes)
    → p.pid ≡ pid
    → All IsNumbered m
    → All IsNumbered (put_pid pid p m)
unfolding put_pid
All-put_pid pid p [] own h = (own, tt)
All-put_pid pid p ((q, r) ∷ m) own (here, rest) = elim (Bool-cases (eq_ℤ q pid)) [
  | inl same ↦ rw same (own, rest)
  | inr other ↦ rw other (here, All-put_pid pid p m own rest)
]

pub All-update_pid :
    (pid : ℤ) (p : Process) (m : Processes)
    → p.pid ≡ pid
    → All IsNumbered m
    → All IsNumbered (update_pid pid p m)
unfolding update_pid
All-update_pid pid p [] own h = tt
All-update_pid pid p ((q, r) ∷ m) own (here, rest) = elim (Bool-cases (eq_ℤ q pid)) [
  | inl same ↦ rw same (own ∙ sym ((eq_ℤ_iff q pid).0 same), rest)
  | inr other ↦ rw other (here, All-update_pid pid p m own rest)
]

pub All-remove_pid :
    (pid : ℤ) (m : Processes) → All IsNumbered m → All IsNumbered (remove_pid pid m)
unfolding remove_pid
All-remove_pid pid [] h = tt
All-remove_pid pid ((q, r) ∷ m) (here, rest) = elim (Bool-cases (eq_ℤ q pid)) [
  | inl same ↦ rw same (All-remove_pid pid m rest)
  | inr other ↦ rw other (here, All-remove_pid pid m rest)
]

pub All-get :
    (id : String) (c : LinuxContainer) (m : Dict LinuxContainer)
    → All IsFiled m
    → get id m ≡ some c
    → IsFiled (id, c)
unfolding get
All-get id c [] h e = absurd (ground (arith, e))
All-get id c ((j, d) ∷ m) (here, rest) e = elim (Bool-cases (str_eq j id)) [
  | inl same ↦
      let found : Path (Option LinuxContainer) (some d) (some c) = rw same at e in
      let container : d ≡ c = ground (arith, found) in
      subst (λ k. IsFiled (k, c)) ((eq_iff j id).0 same)
        (subst (λ x. IsFiled (j, x)) container here)
  | inr other ↦ All-get id c m rest (rw other at e)
]

pub All-put :
    (id : String) (c : LinuxContainer) (m : Dict LinuxContainer)
    → IsFiled (id, c)
    → All IsFiled m
    → All IsFiled (put id c m)
unfolding put
All-put id c [] own h = (own, tt)
All-put id c ((j, d) ∷ m) own (here, rest) = elim (Bool-cases (str_eq j id)) [
  | inl same ↦ rw same (own, rest)
  | inr other ↦ rw other (here, All-put id c m own rest)
]

pub All-remove : (id : String) (m : Dict LinuxContainer) → All IsFiled m → All IsFiled (remove id m)
unfolding remove
All-remove id [] h = tt
All-remove id ((j, d) ∷ m) (here, rest) = elim (Bool-cases (str_eq j id)) [
  | inl same ↦ rw same (All-remove id m rest)
  | inr other ↦ rw other (here, All-remove id m rest)
]
