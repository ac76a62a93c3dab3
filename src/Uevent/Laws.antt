-- ===== src/Uevent/Laws.antt =====
-- Which watchers an event notifies, and which go on waiting.
use kata_rust_agent.Base.{
  ℕ, String, Bool, true, false, Option, none, some, [], ◌∷◌, ◌≡◌, refl, sym, ap, ◌∙◌, arith, inl,
  inr, Bool-cases, str_eq, eq_refl, eq_iff, if◌then◌else◌,
}
use kata_rust_agent.Base.Dict.{Dict, get, get_cons, remove, get-put, get-remove}
use kata_rust_agent.Os.{Os}
use kata_rust_agent.Sandbox.Agent.{Agent}
use kata_rust_agent.Uevent.{Uevent, is_block, is_for, watchers_for, remove_all, handle_uevent}

abbrev unless_in : Option ℕ → Option ℕ → Option ℕ
unless_in none o = o
unless_in (some c) o = none

-- A watcher that the event is not for is not removed.
remove_all-other :
    (e : Uevent) (addr : String) (l m : Dict ℕ)
    → is_for e addr ≡ false
    → get addr (remove_all (watchers_for e l) m) ≡ get addr m
unfolding remove_all watchers_for
remove_all-other e addr [] m other = refl
remove_all-other e addr ((k, c) ∷ l) m other = elim (Bool-cases (is_for e k)) [
  | inl here ↦ rw here (
      remove_all-other e addr l (remove k m) other
      ∙ ground (arith, get-remove k addr m, eq_iff k addr, here, other))
  | inr differ ↦ rw differ (remove_all-other e addr l m other)
]

at_none : (o p : Option ℕ) → p ≡ none → unless_in o p ≡ none
at_none none p e = e
at_none (some c) p e = refl

-- A watcher that the event is for is gone when it was among those looked at.
remove_all-same :
    (e : Uevent) (addr : String) (l m : Dict ℕ)
    → is_for e addr ≡ true
    → get addr (remove_all (watchers_for e l) m) ≡ unless_in (get addr l) (get addr m)
unfolding remove_all watchers_for
remove_all-same e addr [] m same = unfold get in refl
remove_all-same e addr ((k, c) ∷ l) m same = elim (Bool-cases (str_eq k addr)) [
  | inl here ↦
      let at_k : is_for e k ≡ true = ap (is_for e) ((eq_iff k addr).0 here) ∙ same in
      rw at_k (
        remove_all-same e addr l (remove k m) same
        ∙ rw (get_cons k addr c l, here)
            (at_none (get addr l) (get addr (remove k m)) (rw (get-remove k addr m, here) refl)))
  | inr differ ↦
      rw (get_cons k addr c l, differ)
        (elim (Bool-cases (is_for e k)) [
          | inl there ↦ rw there (
              remove_all-same e addr l (remove k m) same
              ∙ ap (unless_in (get addr l)) (get-remove k addr m ∙ rw differ refl))
          | inr off ↦ rw off (remove_all-same e addr l m same)
        ])
]

-- The watchers found are those of the table that the event is for.
watchers_for_lem :
    (e : Uevent) (addr : String) (l : Dict ℕ)
    → get addr (watchers_for e l) ≡ (if is_for e addr then get addr l else none)
unfolding watchers_for
watchers_for_lem e addr [] = elim (Bool-cases (is_for e addr)) [
  | inl f ↦ rw f refl
  | inr f ↦ unfold get in rw f refl
]
watchers_for_lem e addr ((k, c) ∷ l) = rw (get_cons k addr c l) (elim (Bool-cases (is_for e k)) [
  | inl f ↦ rw f (
      rw (get_cons k addr c (watchers_for e l)) (elim (Bool-cases (str_eq k addr)) [
        | inl here ↦ rw (here, sym (ap (is_for e) ((eq_iff k addr).0 here)) ∙ f) refl
        | inr differ ↦ rw differ (watchers_for_lem e addr l)
      ]))
  | inr f ↦ rw f (elim (Bool-cases (str_eq k addr)) [
    | inl here ↦
        let off : is_for e addr ≡ false = sym (ap (is_for e) ((eq_iff k addr).0 here)) ∙ f in
        let ih : get addr (watchers_for e l) ≡ none = rw off at (watchers_for_lem e addr l) in
        rw off ih
    | inr differ ↦ rw differ (watchers_for_lem e addr l)
  ])
])

by_cases :
    {A : Type 0} (b : Bool) (x y z : A)
    → (b ≡ true → x ≡ y)
    → (b ≡ false → x ≡ z)
    → x ≡ (if b then y else z)
by_cases true x y z = λ yes no. yes refl
by_cases false x y z = λ yes no. no refl

at_self : (o : Option ℕ) → unless_in o o ≡ none
at_self none = refl
at_self (some c) = refl

module _ ⦃os : Os⦄ (e : Uevent) (a : Agent os.World) (addr : String) where
  -- After an event for a new block device no watcher that the event is for is left, every other one
  -- still waits for its channel, and the device's name is filed under its path.
  pub handle_uevent-watchers :
      is_block e ≡ true
      → let (sent, a') = handle_uevent e a in
        (get addr a'.watchers ≡ (if is_for e addr then none else get addr a.watchers))
        × (get addr sent ≡ (if is_for e addr then get addr a.watchers else none))
        × (get e.devpath a'.sandbox.pci_device_map ≡ some e.devname)
  unfolding handle_uevent
  handle_uevent-watchers block = rw block (
    by_cases (is_for e addr) _ none (get addr a.watchers)
        (λ f. remove_all-same e addr a.watchers a.watchers f ∙ at_self (get addr a.watchers))
        (λ f. remove_all-other e addr a.watchers a.watchers f),
    watchers_for_lem e addr a.watchers,
    rw (get-put e.devpath e.devpath e.devname a.sandbox.pci_device_map, eq_refl e.devpath) refl,
  )
