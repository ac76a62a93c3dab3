-- ===== src/Sandbox/Orderly/State.antt =====
-- An agent whose sandbox is in order, and the calls of the system.
use kata_rust_agent.Base.Exec.{Exec}
use kata_rust_agent.Base.Exec.Keeps.{Keeps}
use kata_rust_agent.Sandbox.Agent.{Agent, sys}
use kata_rust_agent.Sandbox.Orderly.{IsOrderly}

abbrev pub InOrder : {W : Type 0} → Agent W → Type 0
InOrder a = IsOrderly a.sandbox

pub sys-InOrder : {W A : Type 0} (m : Exec W A) → Keeps InOrder (sys m)
unfolding sys
sys-InOrder m s h = h
