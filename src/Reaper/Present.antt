-- ===== src/Reaper/Present.antt =====
-- A process that a request has found stays where it is while children are reaped, so a wait for it is
-- answered (src/main.rs and `do_wait_process` of src/grpc.rs).
use kata_rust_agent.Base.{
  ℕ, String, true, false, Option, some, List, [], ◌∷◌, ℤ, eq_ℤ, eq_ℤ_iff, str_eq, ◌≡◌, ◌≢◌, refl,
  sym, ap, ◌∙◌, arith, Bool-cases, Option-cases, inl, inr,
}
use mathlib.Core.Path.{subst}
use kata_rust_agent.Base.Dict.{Dict, get, get_cons}
use kata_rust_agent.Base.Exec.{Outcome, ok, panic}
use kata_rust_agent.Base.Exec.Laws.{after}
use kata_rust_agent.Os.{Os}
use kata_rust_agent.Rustjail.Process.{Process, Processes, get_pid, update_pid}
use kata_rust_agent.Rustjail.Container.{LinuxContainer, get_process}
use kata_rust_agent.Sandbox.{Sandbox}
use kata_rust_agent.Sandbox.Agent.{Agent}
use kata_rust_agent.Sandbox.Orderly.{IsOrderly, All-get, All-get_process}
use kata_rust_agent.Grpc.Streams.{Found, find_process, do_wait_process}
use kata_rust_agent.Grpc.Streams.Closing.Laws.{find_process-found}
use kata_rust_agent.Grpc.Streams.Waiting.{do_wait_process-reap, reap_lem}
use kata_rust_agent.Reaper.{WaitStatus, with_code, set_code, reap_children}
use kata_rust_agent.Reaper.Keeps.{reap_children-Keeps}
use kata_rust_agent.Reaper.Waiters.{coded_container, set_code-none, set_code-some}

abbrev HasPid : ℤ → Processes → Type 0
HasPid pid m = (p : Process) × (get_pid pid m ≡ some p)

-- the container is there, with a process of that number
abbrev IsPresent : String → ℤ → Dict LinuxContainer → Type 0
IsPresent cid pid m = (c : LinuxContainer) × (get cid m ≡ some c) × HasPid pid c.processes

update_pid-HasPid :
    (pid q : ℤ) (x : Process) (m : Processes) → HasPid pid m → HasPid pid (update_pid q x m)
unfolding get_pid update_pid
update_pid-HasPid pid q x [] h = h
update_pid-HasPid pid q x ((r, y) ∷ m) (p, h) = elim (Bool-cases (eq_ℤ r q)) [
  | inl changed ↦
      rw (changed, update_pid)
        (elim (Bool-cases (eq_ℤ r pid)) [
          | inl here ↦ (x, rw here refl)
          | inr other ↦ (p, rw other (rw other at h))
        ])
  | inr kept ↦
      rw (kept, update_pid)
        (elim (Bool-cases (eq_ℤ r pid)) [
          | inl here ↦ (y, rw here refl)
          | inr other ↦
              let (p', h') = update_pid-HasPid pid q x m (p, (rw other at h)) in (p', rw other h')
        ])
]

get_process-HasPid :
    (eid : String) (pid : ℤ) (p : Process) (m : Processes)
    → get_process eid m ≡ some (pid, p)
    → HasPid pid m
unfolding get_pid get_process
get_process-HasPid eid pid p [] h = absurd (ground (arith, h))
get_process-HasPid eid pid p ((q, r) ∷ m) h = elim (Bool-cases (eq_ℤ q pid)) [
  | inl here ↦ (r, rw here refl)
  | inr other ↦ rw other (elim (Bool-cases (str_eq eid r.exec_id)) [
    | inl same ↦
        let found : Path (Option (ℤ × Process)) (some (q, r)) (some (pid, p)) = rw same at h in
        absurd (ground (arith, found, other, eq_ℤ_iff q pid))
    | inr differ ↦ get_process-HasPid eid pid p m (rw differ at h)
  ])
]

head-IsPresent :
    (cid : String) (pid : ℤ) (j : String) (c : LinuxContainer) (m : Dict LinuxContainer)
    → str_eq j cid ≡ true
    → HasPid pid c.processes
    → IsPresent cid pid ((j, c) ∷ m)
head-IsPresent cid pid j c m here h = (c, rw (get_cons j cid c m, here) refl, h)

tail-IsPresent :
    (cid : String) (pid : ℤ) (j : String) (c : LinuxContainer) (m : Dict LinuxContainer)
    → str_eq j cid ≡ false
    → IsPresent cid pid m
    → IsPresent cid pid ((j, c) ∷ m)
tail-IsPresent cid pid j c m differ (d, there, h) = (d, rw (get_cons j cid c m, differ) there, h)

set_code-IsPresent :
    (cid : String) (pid q code : ℤ) (m : Dict LinuxContainer)
    → IsPresent cid pid m
    → IsPresent cid pid (set_code q code m)
unfolding set_code
set_code-IsPresent cid pid q code [] h = h
set_code-IsPresent cid pid q code ((j, c₀) ∷ m) (c, there, h) = elim (Bool-cases (str_eq j cid)) [
  | inl here ↦
      let found : Path (Option LinuxContainer) (some c₀) (some c) =
        rw (get_cons j cid c₀ m, here) at there in
      let same : c ≡ c₀ = ground (arith, found) in
      let held : HasPid pid c₀.processes = subst (λ d. HasPid pid d.processes) same h in
      elim (Option-cases (get_pid q c₀.processes)) [
        | inl gone ↦
            subst (IsPresent cid pid) (sym (set_code-none q code j c₀ m gone))
              (head-IsPresent cid pid j c₀ (set_code q code m) here held)
        | inr (p, alive) ↦ subst (IsPresent cid pid) (sym (set_code-some q code j c₀ p m alive)) (
            head-IsPresent cid pid j (coded_container q code p c₀) m here
              (update_pid-HasPid pid q (with_code code p) c₀.processes held))
      ]
  | inr differ ↦
      let rest : get cid m ≡ some c = rw (get_cons j cid c₀ m, differ) at there in
      elim (Option-cases (get_pid q c₀.processes)) [
        | inl gone ↦ subst (IsPresent cid pid) (sym (set_code-none q code j c₀ m gone)) (
            tail-IsPresent cid pid j c₀ (set_code q code m) differ
              (set_code-IsPresent cid pid q code m (c, rest, h)))
        | inr (p, alive) ↦
            subst (IsPresent cid pid) (sym (set_code-some q code j c₀ p m alive))
              (tail-IsPresent cid pid j (coded_container q code p c₀) m differ (c, rest, h))
      ]
]

-- a process that a request finds in a sandbox in order is there under its number
find_process-IsPresent :
    (cid eid : String) (s : Sandbox) (f : Found)
    → IsOrderly s
    → find_process cid eid false s ≡ ok f
    → IsPresent cid f.process.pid s.containers
find_process-IsPresent cid eid s f orderly h =
    let (there, alive) = find_process-found cid eid s f h in
    let (_, numbered) = All-get cid f.ctr s.containers orderly there in
    (
      f.ctr,
      there,
      subst (λ q. HasPid q f.ctr.processes)
          (sym (All-get_process eid f.pid f.process f.ctr.processes numbered alive))
          (get_process-HasPid eid f.pid f.process f.ctr.processes alive),
    )

module _ ⦃os : Os⦄ (close_calm : (fd : ℕ) (w : os.World) → (os.close fd w).0 ≢ panic)
    (read_calm : (fd n : ℕ) (w : os.World) → (os.read_fd fd n w).0 ≢ panic) where
  -- In a sandbox in order, where no close and no read panics, a wait for a process that is found, while
  -- any number of children are reaped, is answered with an exit code: the second look finds the container
  -- and the process again.
  pub do_wait_process-answers :
      (l : List WaitStatus) (cid eid : String) (a : Agent os.World) (f : Found)
      → IsOrderly a.sandbox
      → find_process cid eid false a.sandbox ≡ ok f
      → (code : ℤ) × ((do_wait_process (after (reap_children l)) cid eid a).0 ≡ ok code)
  do_wait_process-answers l cid eid a f orderly found =
      let pid = f.process.pid in
      let (w, again) =
        do_wait_process-reap close_calm (after (reap_children l)) cid eid a f read_calm found in
      let b : Agent os.World = after (reap_children l) (record a { world = w }) in
      let (c, there, (p, alive)) =
        reap_children-Keeps (IsPresent cid pid) (set_code-IsPresent cid pid) l
          (record a { world = w }) (find_process-IsPresent cid eid a.sandbox f orderly found) in
      let (v, reaping) = reap_lem close_calm cid pid c p b there alive in
      (p.exit_code, ap (λ (x : Outcome ℤ × Agent os.World). x.0) (again ∙ reaping))
