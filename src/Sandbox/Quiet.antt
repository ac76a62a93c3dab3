-- ===== src/Sandbox/Quiet.antt =====
-- Calls of a handler that succeed and leave the sandbox alone.
use kata_rust_agent.Base.{◌≡◌, ◌≢◌, refl, ◌∙◌}
use kata_rust_agent.Base.Exec.{Outcome, ok, err, panic, Exec, attempt, pure, ◌>>◌}
use kata_rust_agent.Base.Exec.Laws.{bind_step}
use kata_rust_agent.Sandbox.Agent.{Agent, sys}

-- A call that succeeds and changes nothing but the world.
abbrev pub Quiet : {W : Type 0} → Exec (Agent W) (Unit {0}) → Type 0
Quiet {W = W} m = (a : Agent W) → (w : W) × (m a ≡ (ok tt, record a { world = w }))

pub then-Quiet : {W : Type 0} (m k : Exec (Agent W) (Unit {0})) → Quiet m → Quiet k → Quiet (m >> k)
then-Quiet m k hm hk a =
    let (w, first) = hm a in
    let (v, second) = hk (record a { world = w }) in
    (v, bind_step m (λ _. k) a (record a { world = w }) tt first ∙ second)

attempt_ok :
    {W A : Type 0} (a : Agent W) (x : Outcome A × W)
    → x.0 ≢ panic
    → (r : Outcome A) × (attempt (sys (λ w. x)) a ≡ (ok r, record a { world = x.1 }))
unfolding sys
attempt_ok a (ok v, w) calm = (ok v, refl)
attempt_ok a (err e, w) calm = (err e, refl)
attempt_ok a (panic, w) calm = absurd (calm refl)

pub attempt-Quiet :
    {W A : Type 0} (m : Exec W A) → ((w : W) → (m w).0 ≢ panic) → Quiet (attempt (sys m) >> pure tt)
unfolding sys
attempt-Quiet m calm a =
    let (r, e) = attempt_ok a (m a.world) (calm a.world) in
    (
      (m a.world).1,
      bind_step (attempt (sys m)) (λ _. pure tt) a (record a { world = (m a.world).1 }) r e,
    )
