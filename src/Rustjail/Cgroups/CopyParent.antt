-- ===== src/Rustjail/Cgroups/CopyParent.antt =====
-- `copy_parent` (rustjail/src/cgroups/fs/mod.rs) calls itself on the parent and then again on the
-- directory: how deep that goes, and what it leaves in the file.
use Prim.Native.Char.{code}
use Prim.Native.String.{◌++◌}
use kata_rust_agent.Base.{
  ℕ, zero, suc, ◌<◌, String, false, not, none, some, ◌≡◌, ◌≢◌, refl, arith, ap, ◌⊎◌, inl, inr,
  Bool-cases, str_eq, ◌==◌, if◌then◌else◌,
}
use kata_rust_agent.Base.Text.{trim}
use kata_rust_agent.Base.Exec.{
  Exec, Outcome, ok, err, panic, Error, error_code, io, not_found, raise, crash, attempt, ◌>>=◌,
  ◌>>◌,
}
use kata_rust_agent.Os.{Os}
use kata_rust_agent.Rustjail.Cgroups.{before_slash, read_file, write_file, copy_parent}

unfoldable pub slashes : String → ℕ
slashes String.[] = 0
slashes (String.◌∷◌ c s) = let rest = slashes s in if code c == b'/' then suc rest else rest

-- the parent's path has one slash less
slashes-parent :
    (dir : String)
    → ((before_slash dir ≡ none) × (slashes dir ≡ 0))
      ⊎ ((p : String) × (before_slash dir ≡ some p) × (slashes dir ≡ suc (slashes p)))
unfolding slashes before_slash
slashes-parent String.[] = inl (refl, refl)
slashes-parent (String.◌∷◌ c s) = elim (slashes-parent s) [
  | inl (e, none_left) ↦ elim (Bool-cases (code c == b'/')) [
    | inl slash ↦ inr ("", rw (e, slash) refl, rw (slash, none_left) refl)
    | inr other ↦ inl (rw (e, other) refl, rw (other, none_left) refl)
  ]
  | inr (p, e, one_more) ↦ elim (Bool-cases (code c == b'/')) [
    | inl slash ↦ inr (String.◌∷◌ c p, rw (e) refl, rw (slash, one_more) refl)
    | inr other ↦ inr (String.◌∷◌ c p, rw (e) refl, rw (other, one_more) refl)
  ]
]

-- The files keep what is written to them, and reading and writing do not panic.
pub record Steady ⦃os : Os⦄ : Type 0 where
  pub kept :
      (p v : String) (w w' : os.World)
      → os.write p v w ≡ (ok tt, w')
      → os.read_to_string p w' ≡ ok v
  pub write_returns : (p v : String) (w : os.World) → (os.write p v w).0 ≢ panic
  pub read_returns : (p : String) (w : os.World) → os.read_to_string p w ≢ panic

-- what a call leaves: no panic, and after a success a value in the file
unfoldable pub Settles : ⦃os : Os⦄ → String → String → Outcome (Unit {0}) × os.World → Type 0
Settles ⦃os⦄ dir file x =
    (x.0 ≢ panic)
    × ((w' : os.World)
        → x ≡ (ok tt, w')
        → (v : String) × (os.read_to_string (dir ++ "/" ++ file) w' ≡ ok v)
          × (str_eq (trim v) "" ≡ false))

module _ ⦃os : Os⦄ (steady : Steady) (file : String) where
  write_file-Settles :
      (dir v : String) (w : os.World)
      → str_eq (trim v) "" ≡ false
      → Settles dir file (write_file dir file v w)
  unfolding Settles write_file
  write_file-Settles dir v w filled = (
    steady.write_returns (dir ++ "/" ++ file) v w,
    λ w' done. (v, steady.kept (dir ++ "/" ++ file) v w w' done, filled),
  )

  -- what a call does with the parent's file
  abbrev after_parent :
      Exec os.World (Unit {0}) → String → Outcome String → Exec os.World (Unit {0})
  after_parent up dir (ok v) = if not (str_eq (trim v) "") then write_file dir file v else up
  after_parent up dir (err (io not_found)) = up
  after_parent up dir (err e) = raise e
  after_parent up dir panic = crash

  attempted :
      (up : Exec os.World (Unit {0})) (dir : String) (o : Outcome String) (w : os.World)
      → (attempt (λ (w : os.World). (o, w)) >>= after_parent up dir) w ≡ after_parent up dir o w
  attempted up dir (ok v) w = refl
  attempted up dir (err e) w = refl
  attempted up dir panic w = refl

  copy_parent_step :
      (depth : ℕ) (dir p : String) (w : os.World)
      → before_slash dir ≡ some p
      → copy_parent (suc depth) dir file w
        ≡ after_parent
            (copy_parent depth p file >> copy_parent depth dir file)
            dir
            (os.read_to_string (p ++ "/" ++ file) w)
            w
  unfolding copy_parent read_file
  copy_parent_step depth dir p w up = rw up (
      attempted (copy_parent depth p file >> copy_parent depth dir file) dir
        (os.read_to_string (p ++ "/" ++ file) w) w)

  -- a parent that has a value is copied at once
  copy_value :
      (depth : ℕ) (dir p v : String) (w : os.World)
      → before_slash dir ≡ some p
      → os.read_to_string (p ++ "/" ++ file) w ≡ ok v
      → str_eq (trim v) "" ≡ false
      → copy_parent (suc depth) dir file w ≡ write_file dir file v w
  copy_value depth dir p v w up there filled =
      rw (copy_parent_step depth dir p w up, there) (rw filled refl)

  err-Settles : (dir : String) (e : Error) (w : os.World) → Settles dir file (err e, w)
  unfolding Settles
  err-Settles dir e w = (
    λ h. ground (arith, h),
    λ w' h. absurd (ground (arith, ap (λ (x : Outcome (Unit {0}) × os.World). x.0) h)),
  )

  -- after a parent that had none the second attempt copies
  up-Settles :
      (depth : ℕ) (dir p : String) (w : os.World)
      → before_slash dir ≡ some p
      → (x : Outcome (Unit {0}) × os.World) → Settles p file x
      → Settles dir file (((λ (_ : os.World). x) >> copy_parent (suc depth) dir file) w)
  unfolding Settles
  up-Settles depth dir p w up (ok _, w') (_, holds) =
      let (v, there, filled) = holds w' refl in
      rw (copy_value depth dir p v w' up there filled) (write_file-Settles dir v w' filled)
  up-Settles depth dir p w up (err e, w') _ = err-Settles dir e w'
  up-Settles depth dir p w up (panic, w') (returns, _) = absurd (returns refl)

  by_parent :
      (again : Exec os.World (Unit {0})) (dir : String) (w : os.World) (o : Outcome String)
      → o ≢ panic
      → Settles dir file (again w)
      → Settles dir file (after_parent again dir o w)
  by_parent again dir w (ok v) returns h = elim (Bool-cases (str_eq (trim v) "")) [
    | inl blank ↦ rw blank h
    | inr filled ↦ rw filled (write_file-Settles dir v w filled)
  ]
  by_parent again dir w (err (io not_found)) returns h = h
  by_parent again dir w (err e) returns h = err-Settles dir e w
  by_parent again dir w panic returns h = absurd (returns refl)

  again-Settles :
      (depth : ℕ) (dir p : String) (w : os.World)
      → before_slash dir ≡ some p
      → slashes p < depth
      → Settles p file (copy_parent depth p file w)
      → Settles dir file ((copy_parent depth p file >> copy_parent depth dir file) w)
  again-Settles zero dir p w up h settled = absurd (omega arith)
  again-Settles (suc depth) dir p w up h settled =
      up-Settles depth dir p w up (copy_parent (suc depth) p file w) settled

  -- One level of the stack for each slash of the directory's path, and one more, is enough for
  -- `copy_parent`, as long as the files keep what is written to them: it returns, and after a success
  -- the directory's file has a value that is not blank.
  pub copy_parent-Settles :
      (depth : ℕ) (dir : String) (w : os.World)
      → slashes dir < depth
      → Settles dir file (copy_parent depth dir file w)
  copy_parent-Settles zero dir w h = absurd (omega arith)
  copy_parent-Settles (suc depth) dir w h = elim (slashes-parent dir) [
    | inl (gone, _) ↦
        unfold copy_parent in
        rw gone (err-Settles dir (error_code "cannot copy file from parent") w)
    | inr (p, up, fewer) ↦ rw (copy_parent_step depth dir p w up) (
        by_parent (copy_parent depth p file >> copy_parent depth dir file) dir w
          (os.read_to_string (p ++ "/" ++ file) w) (steady.read_returns (p ++ "/" ++ file) w)
          (again-Settles depth dir p w up (omega (arith, fewer, h))
            (copy_parent-Settles depth p w (omega (arith, fewer, h)))))
  ]
