-- ===== src/Grpc/Namespaces/Laws.antt =====
-- What `update_container_namespaces` guarantees of the namespaces of a new container.
use kata_rust_agent.Base.{
  String, ◌≡◌, refl, true, false, not, ◌&&◌, ◌||◌, some, List, [], ◌∷◌, ◌++◌, map, any,
  any-append_last, All, All-append, str_eq, eq_iff, arith, if◌then◌else◌, Bool-cases, inl, inr, ap,
  ◌∙◌,
}
use mathlib.Core.List.{map-append}
use mathlib.Core.Path.{subst}
use kata_rust_agent.Base.Exec.{ok}
use kata_rust_agent.Oci.{LinuxNamespace, Linux, Spec}
use kata_rust_agent.Sandbox.{Sandbox}
use kata_rust_agent.Grpc.Namespaces.{
  update_container_namespaces, update_namespace, update_list, is_kind, pid_ns, ns_type_pid,
  ns_type_ipc, ns_type_uts,
}

-- The path that a namespace of this type is to have: the sandbox's for those that are shared.
abbrev pub dictated : Sandbox → LinuxNamespace → String
dictated s n =
    if str_eq n.kind ns_type_ipc
    then s.shared_ipcns.path
    else if str_eq n.kind ns_type_uts
    then s.shared_utsns.path
    else n.path

abbrev pub Follows : Sandbox → LinuxNamespace → Type 0
Follows s n = n.path ≡ dictated s n

pub kind-update_namespace :
    (s : Sandbox) (n : LinuxNamespace) → (update_namespace s n).kind ≡ n.kind
unfolding update_namespace
kind-update_namespace s n = ground arith

path-update_namespace :
    (s : Sandbox) (n : LinuxNamespace) → (update_namespace s n).path ≡ dictated s n
unfolding update_namespace
path-update_namespace s n = elim (Bool-cases (str_eq n.kind ns_type_pid)) [
  | inl p ↦ rw (p, (eq_iff n.kind ns_type_pid).0 p) refl
  | inr p ↦ rw p (ground arith)
]

update_namespace-Follows : (s : Sandbox) (n : LinuxNamespace) → Follows s (update_namespace s n)
update_namespace-Follows s n = rw (kind-update_namespace, path-update_namespace) (ground arith)

pid_ns-Follows : (s : Sandbox) → Follows s pid_ns
pid_ns-Follows s = refl

-- the namespaces that are updated, before a namespace is added
map-Follows :
    (s : Sandbox) (nss : List LinuxNamespace) → All (Follows s) (map (update_namespace s) nss)
map-Follows s [] = tt
map-Follows s (n ∷ nss) = (update_namespace-Follows s n, map-Follows s nss)

any-map :
    (s : Sandbox) (kind : String) (nss : List LinuxNamespace)
    → any (is_kind kind) (map (update_namespace s) nss) ≡ any (is_kind kind) nss
any-map s kind [] = refl
any-map s kind (n ∷ nss) = cc (kind-update_namespace s n, any-map s kind nss)

-- Every namespace of the updated list has the path that the sandbox dictates for its type, if it
-- dictates one.
pub update_list-Follows :
    (s : Sandbox) (nss : List LinuxNamespace) → All (Follows s) (update_list s nss)
unfolding update_list
update_list-Follows s nss =
    elim (Bool-cases (not (any (is_kind ns_type_pid) nss) && not s.sandbox_pid_ns)) [
      | inl add ↦
          rw add (All-append (Follows s) _ (pid_ns ∷ []) (map-Follows s nss) (pid_ns-Follows s, tt))
      | inr keep ↦ rw keep (map-Follows s nss)
    ]

-- A new container has a pid namespace of its own or named by its specification, unless the sandbox
-- shares one.
pub update_list_pid :
    (s : Sandbox) (nss : List LinuxNamespace)
    → s.sandbox_pid_ns ≡ false
    → any (is_kind ns_type_pid) (update_list s nss) ≡ true
unfolding update_list
update_list_pid s nss e = elim (Bool-cases (any (is_kind ns_type_pid) nss)) [
  | inl has ↦ ground (arith, any-map s ns_type_pid nss)
  | inr lacks ↦
      rw (lacks, e)
        (any-append_last (is_kind ns_type_pid) (map (update_namespace s) nss) pid_ns refl)
]

update_namespace_idem :
    (s : Sandbox) (n : LinuxNamespace)
    → update_namespace s (update_namespace s n) ≡ update_namespace s n
unfolding update_namespace
update_namespace_idem s n = ground arith

map_idem :
    (s : Sandbox) (nss : List LinuxNamespace)
    → map (update_namespace s) (map (update_namespace s) nss) ≡ map (update_namespace s) nss
map_idem s [] = refl
map_idem s (n ∷ nss) = cc (update_namespace_idem s n, map_idem s nss)

any-update_list :
    (s : Sandbox) (nss : List LinuxNamespace)
    → (not (any (is_kind ns_type_pid) (update_list s nss)) && not s.sandbox_pid_ns) ≡ false
any-update_list s nss = elim (Bool-cases s.sandbox_pid_ns) [
  | inl shared ↦ ground (arith, shared)
  | inr own ↦ ground (arith, update_list_pid s nss own)
]

map-update_list :
    (s : Sandbox) (nss : List LinuxNamespace)
    → map (update_namespace s) (update_list s nss) ≡ update_list s nss
unfolding update_list update_namespace
map-update_list s nss =
    elim (Bool-cases (not (any (is_kind ns_type_pid) nss) && not s.sandbox_pid_ns)) [
      | inl add ↦
          rw (add, map-append) (ap (λ (l : List LinuxNamespace). l ++ pid_ns ∷ []) (map_idem s nss))
      | inr keep ↦ rw keep (map_idem s nss)
    ]

-- Updating twice is updating once.
pub update_list_idem :
    (s : Sandbox) (nss : List LinuxNamespace)
    → update_list s (update_list s nss) ≡ update_list s nss
update_list_idem s nss = unfold update_list in rw any-update_list (map-update_list s nss)

-- the namespace with that path
abbrev pub redirected : Sandbox → LinuxNamespace → LinuxNamespace
redirected s n = record n { path = dictated s n }

-- the pid namespace of its own that a container gets
abbrev pub own_pid_ns : Sandbox → List LinuxNamespace → List LinuxNamespace
own_pid_ns s nss =
    if any (is_kind ns_type_pid) nss || s.sandbox_pid_ns
    then []
    else record { kind = ns_type_pid; path = "" } ∷ []

update_namespace-redirected :
    (s : Sandbox) (n : LinuxNamespace) → update_namespace s n ≡ redirected s n
update_namespace-redirected s n =
    λ i. record { kind = kind-update_namespace s n i; path = path-update_namespace s n i }

map-redirected :
    (s : Sandbox) (nss : List LinuxNamespace)
    → map (update_namespace s) nss ≡ map (redirected s) nss
map-redirected s [] = refl
map-redirected s (n ∷ nss) = cc (update_namespace-redirected s n, map-redirected s nss)

append_none : (nss : List LinuxNamespace) → nss ≡ nss ++ []
append_none [] = refl
append_none (n ∷ nss) = ap (λ l. n ∷ l) (append_none nss)

update_list_lem :
    (s : Sandbox) (nss : List LinuxNamespace)
    → update_list s nss ≡ map (redirected s) nss ++ own_pid_ns s nss
unfolding update_list
update_list_lem s nss = elim (Bool-cases (any (is_kind ns_type_pid) nss)) [
  | inl has ↦ rw has (map-redirected s nss ∙ append_none (map (redirected s) nss))
  | inr lacks ↦ rw lacks (elim (Bool-cases s.sandbox_pid_ns) [
    | inl shared ↦ rw shared (map-redirected s nss ∙ append_none (map (redirected s) nss))
    | inr own ↦ rw own (ap (λ l. l ++ pid_ns ∷ []) (map-redirected s nss))
  ])
]

pub update_container_namespaces_lem :
    (s : Sandbox) (spec : Spec) (l : Linux)
    → spec.linux ≡ some l
    → update_container_namespaces s spec
      ≡ ok (record spec {
        linux = some (record l {
          namespaces = map (redirected s) l.namespaces ++ own_pid_ns s l.namespaces;
        });
      })
unfolding update_container_namespaces
update_container_namespaces_lem s spec l e = rw e (
    ap (λ nss. ok (record spec { linux = some (record l { namespaces = nss }) }))
      (update_list_lem s l.namespaces))

-- what the containers of a sandbox may have
pub redirected-Follows :
    (s : Sandbox) (nss : List LinuxNamespace)
    → All (Follows s) (map (redirected s) nss ++ own_pid_ns s nss)
      × ((any (is_kind ns_type_pid) (map (redirected s) nss ++ own_pid_ns s nss)
            || s.sandbox_pid_ns)
          ≡ true)
redirected-Follows s nss =
    subst (λ l. All (Follows s) l × ((any (is_kind ns_type_pid) l || s.sandbox_pid_ns) ≡ true))
      (update_list_lem s nss) (update_list-Follows s nss, ground (arith, any-update_list s nss))
