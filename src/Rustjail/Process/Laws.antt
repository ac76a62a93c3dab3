-- ===== src/Rustjail/Process/Laws.antt =====
-- What a new process has (`Process::new` of rustjail/src/process.rs).
use kata_rust_agent.Base.{ℕ, String, Bool, true, false, some, ◌≡◌, refl}
use mathlib.Core.Path.{subst}
use kata_rust_agent.Base.Exec.{Exec, ok, pure, ◌>>=◌}
use kata_rust_agent.Base.Exec.Laws.{bind_ok, value}
use kata_rust_agent.Oci.Process.{OciProcess}
use kata_rust_agent.Os.{Os}
use kata_rust_agent.Rustjail.Process.{Process, bare, with_console, new}

-- it is the process that was asked for, with its name
abbrev pub IsFor : OciProcess → String → Bool → Process → Type 0
IsFor oci id init p = (p.exec_id ≡ id) × (p.init ≡ init) × (p.oci ≡ oci)

module _ ⦃os : Os⦄ where
  with_console-IsFor :
      (terminal : Bool) (oci : OciProcess) (id : String) (init : Bool) (p q : Process)
      (w w' : os.World)
      → IsFor oci id init p
      → with_console terminal p w ≡ (ok q, w')
      → IsFor oci id init q
  with_console-IsFor false oci id init p q w w' h e = subst (IsFor oci id init) (value p q w w' e) h
  with_console-IsFor true oci id init p q w w' h e =
      let keep : ℕ × ℕ → Exec os.World Process = λ (parent, child).
        pure (record p { parent_console_socket = some parent; console_socket = some child }) in
      let ((parent, child), t, _, e1) = bind_ok os.socketpair keep w q w' e in
      subst (IsFor oci id init)
        (value (record p { parent_console_socket = some parent; console_socket = some child }) q t
          w' e1)
        h

  pub new-IsFor :
      (oci : OciProcess) (id : String) (init : Bool) (q : Process) (w w' : os.World)
      → new oci id init w ≡ (ok q, w')
      → IsFor oci id init q
  unfolding new
  new-IsFor oci id init q w w' h =
      let whole : Process → ℕ × ℕ → ℕ × ℕ → ℕ × ℕ → Process =
        λ p (stdin, parent_stdin) (parent_stdout, stdout) (parent_stderr, stderr). record p {
          parent_stdin = some parent_stdin;
          stdin = some stdin;
          parent_stdout = some parent_stdout;
          stdout = some stdout;
          parent_stderr = some parent_stderr;
          stderr = some stderr;
        } in
      let errors : Process → ℕ × ℕ → ℕ × ℕ → Exec os.World Process =
        λ p i o. os.pipe >>= λ e. pure (whole p i o e) in
      let outputs : Process → ℕ × ℕ → Exec os.World Process = λ p i. os.pipe >>= errors p i in
      let inputs : Process → Exec os.World Process = λ p. os.pipe >>= outputs p in
      let (p, t, first, h1) =
        bind_ok (with_console oci.terminal (bare oci id init)) inputs w q w' h in
      let (i, t1, _, h2) = bind_ok os.pipe (outputs p) t q w' h1 in
      let (o, t2, _, h3) = bind_ok os.pipe (errors p i) t1 q w' h2 in
      let (e, t3, _, h4) = bind_ok os.pipe (λ e. pure (whole p i o e)) t2 q w' h3 in
      subst (IsFor oci id init) (value (whole p i o e) q t3 w' h4) (
        with_console-IsFor oci.terminal oci id init (bare oci id init) p w t (refl, refl, refl)
          first)
