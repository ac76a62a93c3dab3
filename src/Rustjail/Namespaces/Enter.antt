-- ===== src/Rustjail/Namespaces/Enter.antt =====
-- What a process that enters a running container does with its namespaces (`get_namespaces` and the
-- first loop of `LinuxContainer::start` in rustjail/src/container.rs).
use Prim.Native.Char.{Char}
use Prim.Native.String.{◌++◌}
use Prim.Native.String.append
use mathlib.Core.List.{append_assoc, append-nil}
use mathlib.Core.Path.{subst}
use kata_rust_agent.Base.{
  ℕ, String, Bool, true, false, some, List, [], ◌∷◌, ◌++◌ as append, any, All, ℤ, str_eq, eq_iff,
  eq_refl, if◌then◌else◌, ◌≡◌, ◌⊎◌, refl, sym, ap, ◌∙◌, arith, Bool-cases, inl, inr,
}
use kata_rust_agent.Base.Dict.{get}
use kata_rust_agent.Base.Print.{show_ℕ, show_ℤ}
use kata_rust_agent.Base.Exec.{
  Exec, Outcome, ok, err, panic, Error, error_code, msg, io, nix, parse_int, nul_byte, chain, pure,
  or_raise, attempt, ◌>>=◌,
}
use kata_rust_agent.Base.Exec.Laws.{bind_ok, read_then, unwrap_then, or_raise-ok, value}
use kata_rust_agent.Oci.{Linux, LinuxNamespace}
use kata_rust_agent.Os.{Os}
use kata_rust_agent.Os.Flags.{CloneFlag}
use kata_rust_agent.Rustjail.Namespaces.{
  type_to_name, namespaces, opened, open_ns, place, join, NamespacePlan, empty_plan, plan_from,
  plan_namespaces, get_namespaces, entered_namespaces, ns_link,
}
use kata_rust_agent.Rustjail.Namespaces.Laws.{is_new, plan_from-IsPlan}

abbrev is_blank : String → Bool
is_blank String.[] = true
is_blank (String.◌∷◌ c s) = false

cons-ne-empty : (c : Char) (s : String) → str_eq (String.◌∷◌ c s) "" ≡ false
cons-ne-empty c s = elim (Bool-cases (str_eq (String.◌∷◌ c s) "")) [
  | inl e ↦ absurd (ground (arith, ap is_blank ((eq_iff (String.◌∷◌ c s) "").0 e)))
  | inr e ↦ e
]

module _ ⦃os : Os⦄ where
  -- the namespace is the process's of that kind, and not the one of the kind that the agent is in
  abbrev pub IsApart : ℤ → os.World → LinuxNamespace → Type 0
  IsApart pid w n =
      (name theirs ours : String) × (get n.kind type_to_name ≡ some name)
      × (n.path ≡ ns_link (show_ℤ pid) name)
      × (os.read_link n.path w ≡ ok theirs)
      × (os.read_link (ns_link (show_ℕ (os.pid w)) name) w ≡ ok ours)
      × (str_eq theirs ours ≡ false)

  -- the process and the agent are in the same namespace of this kind
  abbrev pub IsShared : ℤ → os.World → String → Type 0
  IsShared pid w key =
      (name link : String) × (get key type_to_name ≡ some name)
      × (os.read_link (ns_link (show_ℤ pid) name) w ≡ ok link)
      × (os.read_link (ns_link (show_ℕ (os.pid w)) name) w ≡ ok link)

  abbrev pub has_kind : String → LinuxNamespace → Bool
  has_kind key n = str_eq n.kind key

  -- a kind whose namespace is entered, unless it is shared
  abbrev pub IsCovered : ℤ → os.World → List LinuxNamespace → String → Type 0
  IsCovered pid w nses key = IsShared pid w key ⊎ (any (has_kind key) nses ≡ true)

  IsCovered-more :
      (pid : ℤ) (w : os.World) (n : LinuxNamespace) (nses : List LinuxNamespace)
      (keys : List String)
      → All (IsCovered pid w nses) keys
      → All (IsCovered pid w (n ∷ nses)) keys
  IsCovered-more pid w n nses [] h = tt
  IsCovered-more pid w n nses (key ∷ keys) (inl shared, h) =
      (inl shared, IsCovered-more pid w n nses keys h)
  IsCovered-more pid w n nses (key ∷ keys) (inr there, h) =
      (inr (ground (arith, there)), IsCovered-more pid w n nses keys h)

  entered_namespaces-IsApart :
      (pid : ℤ) (keys : List String) (nses : List LinuxNamespace) (w w' : os.World)
      → entered_namespaces pid keys w ≡ (ok nses, w')
      → All (IsApart pid w) nses × All (IsCovered pid w nses) keys
  unfolding entered_namespaces
  entered_namespaces-IsApart pid [] nses w w' h =
      (subst (All (IsApart pid w)) (value [] nses w w' h) tt, tt)
  entered_namespaces-IsApart pid (key ∷ keys) nses w w' h =
      let entry : String → LinuxNamespace =
        λ name. record { kind = key; path = ns_link (show_ℤ pid) name } in
      let finish : String → String → String → List LinuxNamespace → Exec os.World _ =
        λ name theirs ours rest. pure (if str_eq theirs ours then rest else entry name ∷ rest) in
      let after_ours : String → String → String → Exec os.World (List LinuxNamespace) =
        λ name theirs ours. entered_namespaces pid keys >>= finish name theirs ours in
      let own : String → os.World → Outcome String =
        λ name t. os.read_link (ns_link (show_ℕ (os.pid t)) name) t in
      let after_theirs : String → String → Exec os.World (List LinuxNamespace) =
        λ name theirs. (λ t. (own name t, t)) >>= after_ours name theirs in
      let after_name : String → Exec os.World (List LinuxNamespace) =
        λ name. (λ t. (os.read_link (ns_link (show_ℤ pid) name) t, t)) >>= after_theirs name in
      let (name, named, h1) = unwrap_then (get key type_to_name) after_name w nses w' h in
      let (theirs, read, h2) =
        read_then (os.read_link (ns_link (show_ℤ pid) name) w) (after_theirs name) w nses w' h1 in
      let (ours, read_own, h3) = read_then (own name w) (after_ours name theirs) w nses w' h2 in
      let (rest, t, entered, h4) =
        bind_ok (entered_namespaces pid keys) (finish name theirs ours) w nses w' h3 in
      let (apart, covered) = entered_namespaces-IsApart pid keys rest w t entered in
      let Entered : List LinuxNamespace → Type 0 =
        λ l. All (IsApart pid w) l × All (IsCovered pid w l) (key ∷ keys) in
      elim (Bool-cases (str_eq theirs ours)) [
        | inl same ↦
            let link = ap (λ l. ok l) (sym ((eq_iff theirs ours).0 same)) in
            subst Entered (value rest nses t w' (rw same at h4))
              (apart, (inl (name, theirs, named, read, read_own ∙ link), covered))
        | inr different ↦ subst Entered (value (entry name ∷ rest) nses t w' (rw different at h4)) (
          ((name, theirs, ours, named, refl, read, read_own, different), apart),
          (inr (rw (eq_refl key) refl), IsCovered-more pid w (entry name) rest keys covered),
        )
      ]

  ns_link-ne-empty : (pid name : String) → str_eq (ns_link pid name) "" ≡ false
  ns_link-ne-empty pid name =
      let rest = "proc/" ++ pid ++ "/ns/" ++ name in
      ap (λ s. str_eq s "") (append.cons "/" "proc/" (pid ++ "/ns/" ++ name))
      ∙ cons-ne-empty "/" rest

  IsApart-any_new :
      (pid : ℤ) (f : CloneFlag) (nses : List LinuxNamespace) (w : os.World)
      → All (IsApart pid w) nses
      → any (is_new f) nses ≡ false
  IsApart-any_new pid f [] w h = refl
  IsApart-any_new pid f (n ∷ nses) w ((name, _, _, _, path, _, _, _), h) =
      let not_blank : str_eq n.path "" ≡ false =
        ap (λ p. str_eq p "") path ∙ ns_link-ne-empty (show_ℤ pid) name in
      rw not_blank (IsApart-any_new pid f nses w h)

  -- each namespace is joined by a file that was opened at its path, with the flag of its kind
  abbrev pub IsOpened : List LinuxNamespace → List (CloneFlag × ℕ) → Type 0
  IsOpened [] [] = Unit {0}
  IsOpened (n ∷ nses) ((f, fd) ∷ l) =
      (get n.kind namespaces ≡ some f)
      × ((t t' : os.World) × (os.open_read n.path t ≡ (ok fd, t')))
      × IsOpened nses l
  IsOpened nses l = ⊥

  fails :
      {e : Error} {x y : os.World} {fd : ℕ} → Path (Outcome ℕ × os.World) (err e, x) (ok fd, y) → ⊥
  fails h = ground (arith, ap (λ (z : Outcome ℕ × os.World). z.0) h)

  crashes : {x y : os.World} {fd : ℕ} → Path (Outcome ℕ × os.World) (panic, x) (ok fd, y) → ⊥
  crashes h = ground (arith, ap (λ (z : Outcome ℕ × os.World). z.0) h)

  attempted_from :
      (x : Outcome ℕ × os.World) (fd : ℕ) (t' : os.World)
      → (attempt (λ (s : os.World). x) >>= opened) x.1 ≡ (ok fd, t')
      → Path (Outcome ℕ × os.World) x (ok fd, x.1)
  attempted_from (ok n, t) fd t' h = λ i. (ap (λ (y : Outcome ℕ × os.World). y.0) h i, t)
  attempted_from (err (nix e), t) fd t' h = absurd (fails h)
  attempted_from (err (error_code e), t) fd t' h = absurd (crashes h)
  attempted_from (err (msg e), t) fd t' h = absurd (crashes h)
  attempted_from (err (io e), t) fd t' h = absurd (crashes h)
  attempted_from (err parse_int, t) fd t' h = absurd (crashes h)
  attempted_from (err nul_byte, t) fd t' h = absurd (crashes h)
  attempted_from (err (chain text e), t) fd t' h = absurd (crashes h)
  attempted_from (panic, t) fd t' h = absurd (crashes h)

  open_ns-ok :
      (path : String) (fd : ℕ) (t t' : os.World)
      → open_ns path t ≡ (ok fd, t')
      → (u : os.World) × (os.open_read path t ≡ (ok fd, u))
  open_ns-ok path fd t t' h =
      ((os.open_read path t).1, attempted_from (os.open_read path t) fd t' h)

  place-join :
      (n : LinuxNamespace) (s : CloneFlag) (p p' : NamespacePlan) (t t1 : os.World)
      → str_eq n.path "" ≡ false
      → place n s p t ≡ (ok p', t1)
      → (fd : ℕ) × ((u v : os.World) × (os.open_read n.path u ≡ (ok fd, v))) × (join s fd p ≡ p')
  place-join n s p p' t t1 not_blank placed =
      let finish : ℕ → Exec os.World NamespacePlan = λ fd. pure (join s fd p) in
      let (fd, t2, file, h) = bind_ok (open_ns n.path) finish t p' t1 (rw not_blank at placed) in
      let (u, read) = open_ns-ok n.path fd t t2 file in
      (fd, (t, u, read), value (join s fd p) p' t2 t1 h)

  -- the files of the plan are those of the namespaces, after those it had
  abbrev IsJoined : List LinuxNamespace → NamespacePlan → NamespacePlan → Type 0
  IsJoined nses p r =
      (l : List (CloneFlag × ℕ)) × (r.to_join ≡ append p.to_join l) × IsOpened nses l

  plan_from-IsJoined :
      (pid : ℤ) (v : os.World) (nses : List LinuxNamespace) (p r : NamespacePlan) (w w' : os.World)
      → All (IsApart pid v) nses
      → plan_from nses p w ≡ (ok r, w')
      → IsJoined nses p r
  unfolding plan_from
  plan_from-IsJoined pid v [] p r w w' apart h = (
    [],
    ap (λ (q : NamespacePlan). q.to_join) (sym (value p r w w' h)) ∙ sym (append-nil p.to_join),
    tt,
  )
  plan_from-IsJoined pid v (n ∷ nses) p r w w' ((name, _, _, _, path, _, _, _), apart) h =
      let not_blank : str_eq n.path "" ≡ false =
        ap (λ q. str_eq q "") path ∙ ns_link-ne-empty (show_ℤ pid) name in
      let rest : CloneFlag → Exec os.World NamespacePlan =
        λ s. place n s p >>= λ p'. plan_from nses p' in
      let (s, t, found, h1) =
        bind_ok (or_raise (get n.kind namespaces) (error_code "invalid ns type")) rest w r w' h in
      let (p', t1, placed, h2) = bind_ok (place n s p) (λ p'. plan_from nses p') t r w' h1 in
      let (fd, read, new) = place-join n s p p' t t1 not_blank placed in
      let (l, joins, files) = plan_from-IsJoined pid v nses p' r t1 w' apart h2 in
      (
        (s, fd) ∷ l,
        joins
            ∙ ap (λ (q : NamespacePlan). append q.to_join l) (sym new)
            ∙ append_assoc p.to_join ((s, fd) ∷ []) l,
        (
          or_raise-ok (get n.kind namespaces) (error_code "invalid ns type") s w t found,
          read,
          files,
        ),
      )

  -- The plan for a process that enters a running container, with the links as they are when it is made:
  -- no namespace is made; those that are joined are namespaces of the container's first process, each of
  -- its kind, that the agent is not in itself, each by a file that was opened at its path and with the flag
  -- of its kind; and there is one of every kind of which the two do not share theirs.
  pub plan_namespaces-enter :
      (keys : List String) (linux : Linux) (pid : ℤ) (r : NamespacePlan) (w w' : os.World)
      → plan_namespaces keys linux false pid w ≡ (ok r, w')
      → ((f : CloneFlag) → r.to_new f ≡ false)
        × (nses : List LinuxNamespace) × All (IsApart pid w) nses
        × All (IsCovered pid w nses) keys
        × IsOpened nses r.to_join
  unfolding plan_namespaces get_namespaces
  plan_namespaces-enter keys linux pid r w w' h =
      let (nses, t, entered, h1) =
        bind_ok (entered_namespaces pid keys) (λ l. plan_from l empty_plan) w r w' h in
      let (apart, covered) = entered_namespaces-IsApart pid keys nses w t entered in
      let (_, news, _, _) = plan_from-IsPlan nses empty_plan r t w' h1 in
      let (l, joins, files) = plan_from-IsJoined pid w nses empty_plan r t w' apart h1 in
      (
        (λ f. news f ∙ IsApart-any_new pid f nses w apart),
        nses,
        apart,
        covered,
        subst (IsOpened nses) (sym joins) files,
      )
