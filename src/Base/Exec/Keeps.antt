-- ===== src/Base/Exec/Keeps.antt =====
-- Calls that keep a property of the state, whatever comes of them.
use kata_rust_agent.Base.{String, Bool, true, false, Option, none, some, List, [], ◌∷◌, ◌≡◌, refl}
use kata_rust_agent.Base.Exec.{
  Exec, Outcome, ok, err, panic, Error, unwrap, or_raise, raise_if, attempt, chain_err, for_each,
  ◌>>=◌, ◌>>◌,
}
use kata_rust_agent.Base.Exec.Laws.{after}

abbrev pub Keeps : {S A : Type 0} → (S → Type 0) → Exec S A → Type 0
Keeps {S = S} P m = (s : S) → P s → P (after m s)

module _ {S : Type 0} (P : S → Type 0) where
  bind_from :
      {A B : Type 0} (x : Outcome A × S) (f : A → Exec S B) (s : S)
      → P x.1
      → ((a : A) (t : S) → x ≡ (ok a, t) → P t → P (after (f a) t))
      → P (after ((λ _. x) >>= f) s)
  bind_from (ok a, t) f s h rest = rest a t refl h
  bind_from (err e, t) f s h rest = h
  bind_from (panic, t) f s h rest = h

  -- a call, and what follows it where it succeeds
  pub bind-Keeps_known :
      {A B : Type 0} (m : Exec S A) (f : A → Exec S B)
      → Keeps P m
      → ((s : S) (a : A) (t : S) → m s ≡ (ok a, t) → P t → P (after (f a) t))
      → Keeps P (m >>= f)
  bind-Keeps_known m f hm hf s h = bind_from (m s) f s (hm s h) (hf s)

  pub bind-Keeps :
      {A B : Type 0} (m : Exec S A) (f : A → Exec S B)
      → Keeps P m
      → ((a : A) → Keeps P (f a))
      → Keeps P (m >>= f)
  bind-Keeps m f hm hf = bind-Keeps_known m f hm (λ s a t e. hf a t)

  pub then-Keeps :
      {A B : Type 0} (m : Exec S A) (k : Exec S B) → Keeps P m → Keeps P k → Keeps P (m >> k)
  then-Keeps m k hm hk = bind-Keeps m (λ _. k) hm (λ _. hk)

  pub unwrap-Keeps : {A : Type 0} (o : Option A) → Keeps P (unwrap o)
  unwrap-Keeps none s h = h
  unwrap-Keeps (some a) s h = h

  pub or_raise-Keeps : {A : Type 0} (o : Option A) (e : Error) → Keeps P (or_raise o e)
  or_raise-Keeps none e s h = h
  or_raise-Keeps (some a) e s h = h

  pub raise_if-Keeps : (b : Bool) (e : Error) → Keeps P (raise_if b e)
  raise_if-Keeps true e s h = h
  raise_if-Keeps false e s h = h

  attempt_from :
      {A : Type 0} (x : Outcome A × S) (s : S) → P x.1 → P (after (attempt (λ (_ : S). x)) s)
  attempt_from (ok a, t) s h = h
  attempt_from (err e, t) s h = h
  attempt_from (panic, t) s h = h

  pub attempt-Keeps : {A : Type 0} (m : Exec S A) → Keeps P m → Keeps P (attempt m)
  attempt-Keeps m hm s h = attempt_from (m s) s (hm s h)

  pub for_each-Keeps :
      {A : Type 0} (body : A → Exec S (Unit {0}))
      → ((a : A) → Keeps P (body a))
      → (l : List A) → Keeps P (for_each l body)
  unfolding for_each
  for_each-Keeps body hb [] s h = h
  for_each-Keeps body hb (a ∷ l) s h =
      then-Keeps (body a) (for_each l body) (hb a) (for_each-Keeps body hb l) s h

  chain_from :
      {A : Type 0} (text : String) (x : Outcome A × S) (s : S)
      → P x.1
      → P (after (chain_err text (λ (_ : S). x)) s)
  chain_from text (ok a, t) s h = h
  chain_from text (err e, t) s h = h
  chain_from text (panic, t) s h = h

  pub chain_err-Keeps :
      {A : Type 0} (text : String) (m : Exec S A) → Keeps P m → Keeps P (chain_err text m)
  chain_err-Keeps text m hm s h = chain_from text (m s) s (hm s h)
