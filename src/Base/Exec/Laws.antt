-- ===== src/Base/Exec/Laws.antt =====
-- Sequences of calls: what a success came from, and what a sequence keeps.
use kata_rust_agent.Base.{
  Bool, true, false, Option, none, some, All, List, [], ◌∷◌, ◌≡◌, refl, sym, arith, ap, ◌∙◌,
}
use kata_rust_agent.Base.Exec.{
  Exec, Outcome, ok, err, panic, Error, raise_if, unwrap, or_raise, for_each, ◌>>=◌,
}

-- the state after a call
abbrev pub after : {S A : Type 0} → Exec S A → S → S
after m s = (m s).1

module _ {S A B : Type 0} where
  bind_from :
      (x : Outcome A × S) (f : A → Exec S B) (b : B) (s' : S)
      → ((λ _. x) >>= f) x.1 ≡ (ok b, s')
      → (a : A) × (t : S) × (x ≡ (ok a, t)) × (f a t ≡ (ok b, s'))
  bind_from (ok a, t) f b s' e = (a, t, refl, e)
  bind_from (err x, t) f b s' e = absurd (ground (arith, e))
  bind_from (panic, t) f b s' e = absurd (ground (arith, e))

  pub bind_ok :
      (m : Exec S A) (f : A → Exec S B) (s : S) (b : B) (s' : S)
      → (m >>= f) s ≡ (ok b, s')
      → (a : A) × (t : S) × (m s ≡ (ok a, t)) × (f a t ≡ (ok b, s'))
  bind_ok m f s b s' e = bind_from (m s) f b s' e

  bind_keeps_from :
      {X : Type 0} (g : S → X) (x : Outcome A × S) (f : A → Exec S B) (s : S)
      → g x.1 ≡ g s
      → ((a : A) (t : S) → g (after (f a) t) ≡ g t)
      → g (after ((λ _. x) >>= f) s) ≡ g s
  bind_keeps_from g (ok a, t) f s here later = later a t ∙ here
  bind_keeps_from g (err x, t) f s here later = here
  bind_keeps_from g (panic, t) f s here later = here

  pub bind-keeps :
      {X : Type 0} (g : S → X) (m : Exec S A) (f : A → Exec S B) (s : S)
      → g (after m s) ≡ g s
      → ((a : A) (t : S) → g (after (f a) t) ≡ g t)
      → g (after (m >>= f) s) ≡ g s
  bind-keeps g m f s here later = bind_keeps_from g (m s) f s here later

pub for_each-keeps :
    {S A X : Type 0} (g : S → X) (body : A → Exec S (Unit {0}))
    → ((a : A) (s : S) → g (after (body a) s) ≡ g s)
    → (l : List A) (s : S) → g (after (for_each l body) s) ≡ g s
unfolding for_each
for_each-keeps g body h [] s = refl
for_each-keeps g body h (a ∷ l) s =
    bind-keeps g (body a) (λ _. for_each l body) s (h a s) (λ _ t. for_each-keeps g body h l t)

pub value : {S A : Type 0} (a b : A) (s t : S) → Path (Outcome A × S) (ok a, s) (ok b, t) → a ≡ b
value {S = S} {A = A} a b s t e = ground (arith, ap (λ (x : Outcome A × S). x.0) e)

-- after a call that succeeds the rest runs on its value and state
pub bind_step :
    {S A B : Type 0} (m : Exec S A) (f : A → Exec S B) (s t : S) (a : A)
    → m s ≡ (ok a, t)
    → (m >>= f) s ≡ f a t
bind_step m f s t a e = ap (λ (x : Outcome _ × _). ((λ _. x) >>= f) s) e

-- a body that succeeds on an element, from some state
abbrev pub Succeeds : {S A : Type 0} → (A → Exec S (Unit {0})) → A → Type 0
Succeeds {S = S} body a = (s : S) × (s' : S) × (body a s ≡ (ok tt, s'))

-- a loop that succeeds does so on every element
pub for_each-Succeeds :
    {S A : Type 0} (body : A → Exec S (Unit {0})) (l : List A) (s s' : S)
    → for_each l body s ≡ (ok tt, s')
    → All (Succeeds body) l
unfolding for_each
for_each-Succeeds body [] s s' e = tt
for_each-Succeeds body (a ∷ l) s s' e =
    let (_, t, first, rest) = bind_ok (body a) (λ _. for_each l body) s tt s' e in
    ((s, t, first), for_each-Succeeds body l t s' rest)

-- a guard that lets pass
pub raise_if-ok :
    {S : Type 0} (b : Bool) (e : Error) (s s' : S) (u : Unit {0})
    → raise_if b e s ≡ (ok u, s')
    → b ≡ false
raise_if-ok true e s s' u h = absurd (ground (arith, ap (λ (x : Outcome (Unit {0}) × _). x.0) h))
raise_if-ok false e s s' u h = refl

pub unwrap-ok :
    {S A : Type 0} (o : Option A) (a : A) (s s' : S) → unwrap o s ≡ (ok a, s') → o ≡ some a
unwrap-ok none a s s' h = absurd (ground (arith, ap (λ (x : Outcome _ × _). x.0) h))
unwrap-ok (some b) a s s' h = ground (arith, ap (λ (x : Outcome _ × _). x.0) h)

-- `o.ok_or(e)?`
pub or_raise-ok :
    {S A : Type 0} (o : Option A) (e : Error) (a : A) (s s' : S)
    → or_raise o e s ≡ (ok a, s')
    → o ≡ some a
or_raise-ok none e a s s' h = absurd (ground (arith, ap (λ (x : Outcome _ × _). x.0) h))
or_raise-ok (some b) e a s s' h = ground (arith, ap (λ (x : Outcome _ × _). x.0) h)

module _ {S A B : Type 0} where
  -- a call that only reads, and what follows it
  pub read_then :
      (x : Outcome A) (f : A → Exec S B) (s : S) (b : B) (s' : S)
      → ((λ t. (x, t)) >>= f) s ≡ (ok b, s')
      → (a : A) × (x ≡ ok a) × (f a s ≡ (ok b, s'))
  read_then (ok a) f s b s' h = (a, refl, h)
  read_then (err e) f s b s' h = absurd (ground (arith, ap (λ (x : Outcome _ × _). x.0) h))
  read_then panic f s b s' h = absurd (ground (arith, ap (λ (x : Outcome _ × _). x.0) h))

  pub unwrap_then :
      (o : Option A) (f : A → Exec S B) (s : S) (b : B) (s' : S)
      → (unwrap o >>= f) s ≡ (ok b, s')
      → (a : A) × (o ≡ some a) × (f a s ≡ (ok b, s'))
  unwrap_then none f s b s' h = absurd (ground (arith, ap (λ (x : Outcome _ × _). x.0) h))
  unwrap_then (some a) f s b s' h = (a, refl, h)

-- a sequence that succeeds comes to its last call, and that succeeds
pub then_ok :
    {S A B : Type 0} (m : Exec S A) (k : Exec S B) (s : S) (b : B) (s' : S)
    → (m >>= λ _. k) s ≡ (ok b, s')
    → (t : S) × (k t ≡ (ok b, s'))
then_ok m k s b s' h = let (a, t, first, rest) = bind_ok m (λ _. k) s b s' h in (t, rest)

pub unwrap_state :
    {S A : Type 0} (o : Option A) (a : A) (s s' : S) → unwrap o s ≡ (ok a, s') → s' ≡ s
unwrap_state none a s s' h = absurd (ground (arith, ap (λ (x : Outcome _ × _). x.0) h))
unwrap_state (some b) a s s' h = ap (λ (x : Outcome _ × _). x.1) (sym h)

pub or_raise_state :
    {S A : Type 0} (o : Option A) (e : Error) (a : A) (s s' : S)
    → or_raise o e s ≡ (ok a, s')
    → s' ≡ s
or_raise_state none e a s s' h = absurd (ground (arith, ap (λ (x : Outcome _ × _). x.0) h))
or_raise_state (some b) e a s s' h = ap (λ (x : Outcome _ × _). x.1) (sym h)
