-- ===== src/Rustjail/Validator/Laws.antt =====
-- What the validation of a container guarantees (rustjail/src/validator.rs).
use kata_rust_agent.Base.{
  String, Bool, true, false, not, ◌&&◌, ◌||◌, List, ◌≡◌, refl, starts_with, str_eq, ◌≢◌, arith, inl,
  inr, Bool-cases, eq_iff,
}
use kata_rust_agent.Base.Exec.{Outcome, ok, err, panic, Error}
use kata_rust_agent.Oci.{LinuxNamespace}
use kata_rust_agent.Os.{Os}
use kata_rust_agent.Rustjail.Validator.{
  ◌>>=◌, ◌>>◌, refuse_if, contain_namespace, is_ipc_key, check_host_ns, uts_key, check_sysctl,
  get_namespace_path,
}

pub bind_ok :
    {A B : Type 0} (m : Outcome A) (f : A → Outcome B) (b : B)
    → m >>= f ≡ ok b
    → (a : A) × (m ≡ ok a) × (f a ≡ ok b)
bind_ok (ok a) f b e = (a, refl, e)
bind_ok (err x) f b e = absurd (ground (arith, e))
bind_ok panic f b e = absurd (ground (arith, e))

pub refuse_if_ok : (b : Bool) (x : Error) → refuse_if b x ≡ ok tt → b ≡ false
refuse_if_ok true x e = absurd (ground (arith, e))
refuse_if_ok false x e = refl

-- The container has the namespace that a kernel parameter belongs to.
abbrev pub owned : List LinuxNamespace → String → Bool
owned nses key =
    is_ipc_key key && contain_namespace nses "ipc"
    || starts_with key "net." && contain_namespace nses "network"
    || str_eq key "kernel.domainname" && contain_namespace nses "uts"

module _ ⦃os : Os⦄ (w : os.World) where
  uts_key-owned :
      (nses : List LinuxNamespace) (key : String)
      → uts_key w nses key ≡ ok tt
      → owned nses key ≡ true
  unfolding uts_key
  uts_key-owned nses key e = ground (
    arith,
    refuse_if_ok (not (contain_namespace nses "uts" && str_eq key "kernel.domainname")) _ e,
  )

  pub check_sysctl-owned :
      (nses : List LinuxNamespace) (key : String)
      → check_sysctl w nses key ≡ ok tt
      → owned nses key ≡ true
  unfolding check_sysctl
  check_sysctl-owned nses key = elim (Bool-cases (is_ipc_key key)) [
    | inl ipc ↦ rw ipc (λ e. ground (arith, refuse_if_ok (not (contain_namespace nses "ipc")) _ e))
    | inr not_ipc ↦ rw not_ipc (elim (Bool-cases (starts_with key "net.")) [
      | inl net ↦ rw net (λ e. ground (
        arith,
        bind_ok (refuse_if (not (contain_namespace nses "network")) _) _ tt e,
        refuse_if_ok (not (contain_namespace nses "network")),
      ))
      | inr other ↦ rw other (λ e. ground (arith, not_ipc, other, uts_key-owned nses key e))
    ])
  ]

  uts_key-net :
      (nses : List LinuxNamespace) (key : String)
      → starts_with key "net." ≡ true
      → uts_key w nses key ≡ ok tt
      → ⊥
  unfolding uts_key
  uts_key-net nses key net e =
      let domain : str_eq key "kernel.domainname" ≡ true = ground (
        arith,
        refuse_if_ok (not (contain_namespace nses "uts" && str_eq key "kernel.domainname")) _ e,
      ) in
      let same : key ≡ "kernel.domainname" =
        ground (arith, domain, eq_iff key "kernel.domainname") in
      let net' = rw same at net in ground (arith, net')

  -- For a container that joins a network namespace by a path, a key of the network is refused
  -- whatever the path is: also one that is not the agent's own namespace.
  pub check_sysctl-net_path :
      (nses : List LinuxNamespace) (key path : String)
      → starts_with key "net." ≡ true
      → is_ipc_key key ≡ false
      → get_namespace_path nses "network" ≡ ok path
      → str_eq path "" ≡ false
      → check_sysctl w nses key ≢ ok tt
  unfolding check_sysctl
  check_sysctl-net_path nses key path net not_ipc there long =
      rw (not_ipc, net)
        (λ e.
          let (u, here, rest) =
            bind_ok (refuse_if (not (contain_namespace nses "network")) _) _ tt e in
          let rest' : (check_host_ns w path >> uts_key w nses key) ≡ ok tt =
            rw (there, long) at rest in
          let (v, host, last) = bind_ok (check_host_ns w path) (λ _. uts_key w nses key) tt rest' in
          uts_key-net nses key net last)
