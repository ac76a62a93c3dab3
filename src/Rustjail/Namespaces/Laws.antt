-- ===== src/Rustjail/Namespaces/Laws.antt =====
-- What the plan of a process's namespaces holds (the first loop of `LinuxContainer::start` and
-- `get_namespaces` of rustjail/src/container.rs).
use mathlib.Core.List.{append_assoc, append-nil}
use mathlib.Core.Path.{subst}
use kata_rust_agent.Base.{
  ℕ, String, Bool, true, false, ◌&&◌, ◌||◌, Option, none, some, List, [], ◌∷◌, ◌++◌ as append, map,
  any, All, ◌==◌, ℤ, str_eq, if◌then◌else◌, ◌≡◌, ◌≢◌, refl, sym, ap, ◌∙◌, arith, Bool-cases, inl,
  inr,
}
use kata_rust_agent.Base.Dict.{get}
use kata_rust_agent.Base.Exec.{Exec, ok, error_code, pure, or_raise, ◌>>=◌}
use kata_rust_agent.Base.Exec.Laws.{bind_ok, or_raise-ok, value}
use kata_rust_agent.Oci.{Linux, LinuxNamespace}
use kata_rust_agent.Os.{Os}
use kata_rust_agent.Os.Flags.{CloneFlag, newpid, clone_index}
use kata_rust_agent.Rustjail.Namespaces.{
  namespaces, NamespacePlan, empty_plan, make, join, open_ns, place, plan_from, plan_namespaces,
  get_namespaces,
}

-- the namespace is of the flag's type
abbrev pub is_type : CloneFlag → LinuxNamespace → Bool
is_type f n = elim (get n.kind namespaces) [
  | none ↦ false
  | some g ↦ clone_index g == clone_index f
]

-- without a path, so that it is to be made
abbrev pub is_new : CloneFlag → LinuxNamespace → Bool
is_new f n = str_eq n.path "" && is_type f n

-- the flags of the namespaces that have a path, in their order
abbrev pub joined : List LinuxNamespace → List CloneFlag
joined [] = []
joined (n ∷ nses) =
    let rest = joined nses in
    if str_eq n.path ""
    then rest
    else elim (get n.kind namespaces) [ none ↦ rest | some g ↦ g ∷ rest ]

abbrev pub IsKnown : LinuxNamespace → Type 0
IsKnown n = get n.kind namespaces ≢ none

-- a plan that a list of namespaces makes from an earlier plan
abbrev pub IsPlan : List LinuxNamespace → NamespacePlan → NamespacePlan → Type 0
IsPlan nses p r =
    All IsKnown nses
    × ((f : CloneFlag) → r.to_new f ≡ (p.to_new f || any (is_new f) nses))
    × (map (λ x. x.0) r.to_join ≡ append (map (λ x. x.0) p.to_join) (joined nses))
    × (r.pidns ≡ (p.pidns || any (is_type newpid) nses))

map-join :
    (l : List (CloneFlag × ℕ)) (s : CloneFlag) (fd : ℕ)
    → map (λ x. x.0) (append l ((s, fd) ∷ [])) ≡ append (map (λ x. x.0) l) (s ∷ [])
map-join [] s fd = refl
map-join (x ∷ l) s fd = ap (λ (k : List CloneFlag). x.0 ∷ k) (map-join l s fd)

is_type-some :
    (n : LinuxNamespace) (s f : CloneFlag)
    → get n.kind namespaces ≡ some s
    → is_type f n ≡ (clone_index s == clone_index f)
is_type-some n s f known =
    ap (λ (o : Option CloneFlag). elim o [ none ↦ false | some g ↦ clone_index g == clone_index f ])
      known

IsPlan-make :
    (n : LinuxNamespace) (nses : List LinuxNamespace) (s : CloneFlag) (p r : NamespacePlan)
    → get n.kind namespaces ≡ some s
    → str_eq n.path "" ≡ true
    → IsPlan nses (make s p) r
    → IsPlan (n ∷ nses) p r
IsPlan-make n nses s p r known blank (all, news, joins, pid) = (
  ((λ e. ground (arith, known, e)), all),
  (λ f. rw blank (ground (arith, news f, is_type-some n s f known))),
  rw blank joins,
  ground (arith, pid, is_type-some n s newpid known),
)

IsPlan-join :
    (n : LinuxNamespace) (nses : List LinuxNamespace) (s : CloneFlag) (fd : ℕ) (p r : NamespacePlan)
    → get n.kind namespaces ≡ some s
    → str_eq n.path "" ≡ false
    → IsPlan nses (join s fd p) r
    → IsPlan (n ∷ nses) p r
IsPlan-join n nses s fd p r known path (all, news, joins, pid) = (
  ((λ e. ground (arith, known, e)), all),
  (λ f. rw path (news f)),
  rw (path, known)
      (joins
        ∙ ap (λ l. append l (joined nses)) (map-join p.to_join s fd)
        ∙ append_assoc (map (λ x. x.0) p.to_join) (s ∷ []) (joined nses)),
  ground (arith, pid, is_type-some n s newpid known),
)

module _ ⦃os : Os⦄ where
  place-IsPlan :
      (n : LinuxNamespace) (nses : List LinuxNamespace) (s : CloneFlag) (p p' r : NamespacePlan)
      (t t1 : os.World)
      → get n.kind namespaces ≡ some s
      → place n s p t ≡ (ok p', t1)
      → IsPlan nses p' r
      → IsPlan (n ∷ nses) p r
  place-IsPlan n nses s p p' r t t1 known placed h = elim (Bool-cases (str_eq n.path "")) [
    | inl blank ↦
        let made : make s p ≡ p' = value (make s p) p' t t1 (rw blank at placed) in
        IsPlan-make n nses s p r known blank (subst (λ q. IsPlan nses q r) (sym made) h)
    | inr path ↦
        let finish : ℕ → Exec os.World NamespacePlan = λ fd. pure (join s fd p) in
        let (fd, t2, _, h1) = bind_ok (open_ns n.path) finish t p' t1 (rw path at placed) in
        IsPlan-join n nses s fd p r known path
          (subst (λ q. IsPlan nses q r) (sym (value (join s fd p) p' t2 t1 h1)) h)
  ]

  pub plan_from-IsPlan :
      (nses : List LinuxNamespace) (p r : NamespacePlan) (w w' : os.World)
      → plan_from nses p w ≡ (ok r, w')
      → IsPlan nses p r
  unfolding plan_from
  plan_from-IsPlan [] p r w w' h =
      let same : p ≡ r = value p r w w' h in
      (
        tt,
        (λ f. ap (λ (q : NamespacePlan). q.to_new f) (sym same) ∙ ground arith),
        ap (λ (q : NamespacePlan). map (λ x. x.0) q.to_join) (sym same) ∙ sym (append-nil _),
        ap (λ (q : NamespacePlan). q.pidns) (sym same) ∙ ground arith,
      )
  plan_from-IsPlan (n ∷ nses) p r w w' h =
      let rest : CloneFlag → Exec os.World NamespacePlan =
        λ s. place n s p >>= λ p'. plan_from nses p' in
      let (s, t, found, h1) =
        bind_ok (or_raise (get n.kind namespaces) (error_code "invalid ns type")) rest w r w' h in
      let known = or_raise-ok (get n.kind namespaces) (error_code "invalid ns type") s w t found in
      let (p', t1, placed, h2) = bind_ok (place n s p) (λ p'. plan_from nses p') t r w' h1 in
      place-IsPlan n nses s p p' r t t1 known placed (plan_from-IsPlan nses p' r t1 w' h2)

  -- The plan for the first process of a container: each namespace has a known type, those without a
  -- path are to be made and no other, those with a path are to be joined in their order, and there is
  -- a pid namespace if one of them is.
  pub plan_namespaces-init :
      (keys : List String) (linux : Linux) (pid : ℤ) (r : NamespacePlan) (w w' : os.World)
      → plan_namespaces keys linux true pid w ≡ (ok r, w')
      → All IsKnown linux.namespaces
        × ((f : CloneFlag) → r.to_new f ≡ any (is_new f) linux.namespaces)
        × (map (λ x. x.0) r.to_join ≡ joined linux.namespaces)
        × (r.pidns ≡ any (is_type newpid) linux.namespaces)
  unfolding plan_namespaces get_namespaces
  plan_namespaces-init keys linux pid r w w' h =
      plan_from-IsPlan linux.namespaces empty_plan r w w' h
