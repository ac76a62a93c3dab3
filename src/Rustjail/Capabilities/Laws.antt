-- ===== src/Rustjail/Capabilities/Laws.antt =====
-- Which capabilities a container cannot be given.
use kata_rust_agent.Base.{
  ℕ, String, Bool, false, ◌==◌, List, [], ◌∷◌, ◌≡◌, refl, arith, any, inl, inr, Bool-cases, str_eq,
}
use kata_rust_agent.Base.Dict.{Dict, get, get_cons}
use kata_rust_agent.Rustjail.Capabilities.{caps_map, is_cap, to_capshashset}

abbrev pub has_value : ℕ → String × ℕ → Bool
has_value c e = e.1 == c

-- What a table maps no name to is no name's value.
get-has_value :
    (c : ℕ) (name : String) (m : Dict ℕ)
    → any (has_value c) m ≡ false
    → is_cap c (get name m) ≡ false
get-has_value c name [] h = unfold get in refl
get-has_value c name ((k, v) ∷ m) h = rw (get_cons k name v m) (elim (Bool-cases (str_eq k name)) [
  | inl e ↦ rw e (ground (arith, h))
  | inr e ↦ rw e (get-has_value c name m (ground (arith, h)))
])

-- A capability that the table has no name for is in no set that is made of names: a container never
-- gets it, whatever its specification asks for.
pub to_capshashset-lacks :
    (c : ℕ) (names : List String)
    → any (has_value c) caps_map ≡ false
    → to_capshashset names c ≡ false
unfolding to_capshashset
to_capshashset-lacks c [] h = refl
to_capshashset-lacks c (name ∷ names) h =
    rw (get-has_value c name caps_map h) (to_capshashset-lacks c names h)
