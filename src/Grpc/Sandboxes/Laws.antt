-- ===== src/Grpc/Sandboxes/Laws.antt =====
-- A sandbox is destroyed once (`destroy_sandbox` of src/grpc.rs).
use kata_rust_agent.Base.{ℕ, String, Bool, Option, none, ◌≡◌, refl, sym, ap, ◌∙◌, if◌then◌else◌}
use kata_rust_agent.Base.Exec.{
  Exec, Outcome, ok, err, panic, pure, crash, attempt, modify, unwrap, ◌>>=◌, ◌>>◌,
}
use kata_rust_agent.Base.Exec.Laws.{after, bind_ok, for_each-keeps}
use kata_rust_agent.Os.{Os}
use kata_rust_agent.Rustjail.Container.{LinuxContainer}
use kata_rust_agent.Rustjail.Lifecycle as Container
use kata_rust_agent.Sandbox.Agent.{Agent, on_container, destroy_all}
use kata_rust_agent.Grpc.Sandboxes.{must, notify, destroy_sandbox}

abbrev sender_of : {W : Type 0} → Agent W → Option ℕ
sender_of a = a.sandbox.sender

module _ ⦃os : Os⦄ where
  on_container-sender :
      (id : String) (c : LinuxContainer) (a : Agent os.World)
      → sender_of (after (on_container id c Container.destroy) a) ≡ sender_of a
  unfolding on_container
  on_container-sender id c a = refl

  destroy_all-sender : (a : Agent os.World) → sender_of (after destroy_all a) ≡ sender_of a
  unfolding destroy_all
  destroy_all-sender a =
      for_each-keeps sender_of
        (λ (e : String × LinuxContainer). on_container e.0 e.1 Container.destroy)
        (λ e b. on_container-sender e.0 e.1 b) a.sandbox.containers a

  -- without the channel there is only a panic, whatever became of the containers
  no_sender :
      (o : Outcome (Unit {0})) (t a : Agent os.World) (send : ℕ → Bool)
      → sender_of t ≡ none
      → ((attempt (λ (_ : Agent os.World). (o, t)) >>= λ r. must r >> notify send) a).0 ≡ panic
  no_sender (ok _) t a send gone = rw gone refl
  no_sender (err e) t a send gone = refl
  no_sender panic t a send gone = refl

  notify-sender :
      (send : ℕ → Bool) (a a' : Agent os.World) → notify send a ≡ (ok tt, a') → sender_of a' ≡ none
  notify-sender send a a' h =
      let clear : Exec (Agent os.World) (Unit {0}) =
        modify (λ b. record b { sandbox = record b.sandbox { sender = none } }) in
      let tell : ℕ → Exec (Agent os.World) (Unit {0}) = λ ch. if send ch then pure tt else crash in
      let (ch, t, _, h1) = bind_ok (unwrap (sender_of a)) (λ ch. tell ch >> clear) a tt a' h in
      let (_, t1, _, h2) = bind_ok (tell ch) (λ _. clear) t tt a' h1 in
      ap (λ (x : Outcome (Unit {0}) × Agent os.World). sender_of x.1) (sym h2)

  -- Once a request has destroyed the sandbox, every further request to destroy it panics.
  pub destroy_sandbox_once :
      (send send' : ℕ → Bool) (a a' : Agent os.World)
      → destroy_sandbox send a ≡ (ok tt, a')
      → (destroy_sandbox send' a').0 ≡ panic
  unfolding destroy_sandbox
  destroy_sandbox_once send send' a a' h =
      let (r, t, _, h1) = bind_ok (attempt destroy_all) (λ r. must r >> notify send) a tt a' h in
      let (_, t1, _, h2) = bind_ok (must r) (λ _. notify send) t tt a' h1 in
      no_sender (destroy_all a').0 (destroy_all a').1 a' send'
        (destroy_all-sender a' ∙ notify-sender send t1 a' h2)
