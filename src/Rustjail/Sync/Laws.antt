-- ===== src/Rustjail/Sync/Laws.antt =====
-- A process id goes through a pipe as it was sent, however the pipe cuts its bytes into pieces and
-- however often a call is interrupted; a pipe that has ended keeps `read_sync` going for ever
-- (rustjail/src/container.rs).
use mathlib.Core.List.{append_assoc, append-nil}
use mathlib.Core.Path.{subst}
use kata_rust_agent.Base.{
  ℕ, zero, suc, ◌+◌, ◌-◌, ◌^◌, ◌≤◌, ◌<◌, Option, none, some, List, [], ◌∷◌, ◌++◌, true, false, ◌≡◌,
  ◌≢◌, refl, sym, ap, ◌∙◌, arith, ◌==◌, ℤ, pos, negsuc, length, if◌then◌else◌,
}
use kata_rust_agent.Base.Exec.{
  Exec, Outcome, ok, err, panic, nix, eintr, pure, raise, crash, attempt, ◌>>=◌,
}
use kata_rust_agent.Base.Exec.Laws.{bind_step}
use kata_rust_agent.Os.{Os}
use kata_rust_agent.Rustjail.Sync.{pidsize, to_be_bytes, from_be_bytes, read_loop, read_sync}

-- the ids that an i32 has
abbrev pub IsI32 : ℤ → Type 0
IsI32 (pos n) = n < 2 ^ 31
IsI32 (negsuc n) = n < 2 ^ 31

from_be_bytes-to_be_bytes : (pid : ℤ) → IsI32 pid → from_be_bytes (to_be_bytes pid) ≡ pid
unfolding from_be_bytes to_be_bytes
from_be_bytes-to_be_bytes (pos n) h = ground arith
from_be_bytes-to_be_bytes (negsuc n) h = ground arith

length-append : (xs ys : List ℕ) → length (xs ++ ys) ≡ length xs + length ys
length-append [] ys = omega arith
length-append (x ∷ xs) ys = omega (arith, length-append xs ys)

-- of two ways to cut a list, the longer front starts with the shorter
longer_front :
    (xs ys zs ws : List ℕ)
    → xs ++ ys ≡ zs ++ ws
    → length zs ≤ length xs
    → (r : List ℕ) × (xs ≡ zs ++ r) × (ws ≡ r ++ ys)
longer_front xs ys [] ws e h = (xs, refl, sym e)
longer_front [] ys (z ∷ zs) ws e h = absurd (omega (arith, h))
longer_front (x ∷ xs) ys (z ∷ zs) ws e h =
    let (r, front, back) = longer_front xs ys zs ws (ground (arith, e)) (omega (arith, h)) in
    (r, ground (arith, e, front), back)

module _ ⦃os : Os⦄ (contents : os.World → List ℕ) (tries : os.World → ℕ) where
  -- What a read of at most `n` bytes from a pipe that has some may come to: a first part of them, or an
  -- interruption, of which only so many are to come.
  pub data ReadStep (n : ℕ) (w : os.World) : Outcome (List ℕ) × os.World → Type 0 where
    got :
        (chunk : List ℕ) (w' : os.World)
        → contents w ≡ chunk ++ contents w'
        → 0 < length chunk
        → length chunk ≤ n
        → tries w' ≤ tries w
        → ReadStep n w (ok chunk, w')
    interrupted :
        (w' : os.World)
        → contents w' ≡ contents w
        → tries w' < tries w
        → ReadStep n w (err (nix eintr), w')

  abbrev pub Readable : ℕ → Type 0
  Readable fd = (n : ℕ) (w : os.World) → 0 < n → contents w ≢ [] → ReadStep n w (os.read_fd fd n w)

  -- the bytes that are wanted arrive, and what follows them stays in the pipe
  abbrev Arrives : List ℕ → List ℕ → Outcome (Option (List ℕ)) × os.World → Type 0
  Arrives bytes more x = (w' : os.World) × (x ≡ (ok (some bytes), w')) × (contents w' ≡ more)

  abbrev again : ℕ → ℕ → List ℕ → Outcome (List ℕ) → Exec os.World (Option (List ℕ))
  again fuel fd v (ok l) =
      if length (v ++ l) == pidsize then pure (some (v ++ l)) else read_loop fuel fd (v ++ l)
  again fuel fd v (err (nix eintr)) = read_loop fuel fd v
  again fuel fd v (err e) = raise e
  again fuel fd v panic = crash

  -- where the loop stands: the bytes read, those still wanted, and those behind them
  abbrev Stands : ℕ → List ℕ → List ℕ → List ℕ → os.World → Type 0
  Stands fuel v need more w =
      (contents w ≡ need ++ more)
      × (length v + length need ≡ 4)
      × (0 < length need)
      × (length need + tries w < fuel)

  -- enough bytes to go on with are enough to end with
  abbrev Ends : ℕ → ℕ → List ℕ → Type 0
  Ends fuel fd more =
      (v need : List ℕ) (w : os.World)
      → Stands fuel v need more w
      → Arrives (v ++ need) more (read_loop fuel fd v w)

  after_chunk :
      (fuel fd : ℕ) (v need more chunk rest : List ℕ) (w : os.World)
      → Ends fuel fd more
      → need ≡ chunk ++ rest
      → contents w ≡ rest ++ more
      → length v + length need ≡ 4
      → 0 < length chunk
      → length need + tries w < suc fuel
      → Arrives (v ++ need) more (again fuel fd v (ok chunk) w)
  after_chunk fuel fd v need more chunk [] w ends cut left full some_bytes enough =
      let whole : need ≡ chunk = cut ∙ append-nil chunk in
      let four : (length (v ++ chunk) == pidsize) ≡ true =
        ground (arith, length-append v chunk, full, whole) in
      rw four (w, rw whole refl, left)
  after_chunk fuel fd v need more chunk (b ∷ rest) w ends cut left full some_bytes enough =
      let sizes : length need ≡ length chunk + length (b ∷ rest) =
        rw cut (length-append chunk (b ∷ rest)) in
      let open_still : (length (v ++ chunk) == pidsize) ≡ false =
        ground (arith, length-append v chunk, full, sizes) in
      rw open_still (
        subst (λ l. Arrives l more (read_loop fuel fd (v ++ chunk) w))
          (append_assoc v chunk (b ∷ rest) ∙ ap (λ l. v ++ l) (sym cut))
          (ends (v ++ chunk) (b ∷ rest) w (
            left,
            omega (arith, length-append v chunk, full, sizes),
            omega arith,
            omega (arith, sizes, some_bytes, enough),
          )))

  after_step :
      (fuel fd : ℕ) (v need more : List ℕ) (w : os.World)
      → Ends fuel fd more
      → Stands (suc fuel) v need more w
      → (x : Outcome (List ℕ) × os.World) → ReadStep (4 - length v) w x
      → Arrives (v ++ need) more ((attempt (λ (_ : os.World). x) >>= again fuel fd v) w)
  after_step fuel fd v need more w ends (left, full, wanted, enough) _
        (got chunk w' cut some_bytes fits fewer) =
      let (rest, front, back) =
        longer_front need more chunk (contents w') (sym left ∙ cut) (omega (arith, fits, full)) in
      after_chunk fuel fd v need more chunk rest w' ends front back full some_bytes
        (omega (arith, enough, fewer))
  after_step fuel fd v need more w ends (left, full, wanted, enough) _ (interrupted w' same fewer) =
      ends v need w' (same ∙ left, full, wanted, omega (arith, enough, fewer))

  need-ne-nil : (need more : List ℕ) → 0 < length need → need ++ more ≢ []
  need-ne-nil [] more h = absurd (omega (arith, h))
  need-ne-nil (b ∷ need) more h = λ e. ground (arith, e)

  read_loop-Ends : (fuel fd : ℕ) (more : List ℕ) → Readable fd → Ends fuel fd more
  unfolding read_loop
  read_loop-Ends zero fd more readable v need w (left, full, wanted, enough) =
      absurd (omega (arith, enough))
  read_loop-Ends (suc fuel) fd more readable v need w stands =
      after_step fuel fd v need more w (read_loop-Ends fuel fd more readable) stands
        (os.read_fd fd (4 - length v) w)
        (readable (4 - length v) w (omega (arith, stands.1, stands.2))
          (subst (λ l. l ≢ []) (sym stands.0) (need-ne-nil need more stands.2)))

  -- From a pipe that holds the four bytes of a process id, `read_sync` gets the process id, in whatever
  -- pieces they come, with one round for each byte and each interruption, and one more.
  pub read_sync-to_be_bytes :
      (fuel fd : ℕ) (pid : ℤ) (more : List ℕ) (w : os.World)
      → Readable fd
      → IsI32 pid
      → contents w ≡ to_be_bytes pid ++ more
      → 4 + tries w < fuel
      → (w' : os.World) × (read_sync fuel fd w ≡ (ok (some pid), w')) × (contents w' ≡ more)
  unfolding read_sync to_be_bytes
  read_sync-to_be_bytes fuel fd pid more w readable small holds enough =
      let (w', read, left) =
        read_loop-Ends fuel fd more readable [] (to_be_bytes pid) w
          (holds, refl, omega arith, enough) in
      let decode : Option (List ℕ) → Exec os.World (Option ℤ) =
        λ v. pure (elim v [ none ↦ none | some bytes ↦ some (from_be_bytes bytes) ]) in
      (
        w',
        bind_step (read_loop fuel fd []) decode w w' (some (to_be_bytes pid)) read
            ∙ ap (λ n. (ok (some n), w')) (from_be_bytes-to_be_bytes pid small),
        left,
      )

-- an end of a pipe: reads answer no bytes, as they do once every writer has closed
abbrev pub IsEnded : ⦃os : Os⦄ → ℕ → os.World → Type 0
IsEnded ⦃os⦄ fd w = (n : ℕ) → os.read_fd fd n w ≡ (ok [], w)

module _ ⦃os : Os⦄ (fd : ℕ) (w : os.World) (ended : IsEnded fd w) where
  read_loop-IsEnded : (fuel : ℕ) (v : List ℕ) → length v < 4 → read_loop fuel fd v w ≡ (ok none, w)
  unfolding read_loop
  read_loop-IsEnded zero v few = refl
  read_loop-IsEnded (suc fuel) v few =
      let next : Outcome (List ℕ) → Exec os.World (Option (List ℕ)) =
        again (λ _. []) (λ _. 0) fuel fd v in
      let short : (length (v ++ []) == pidsize) ≡ false = ground (arith, length-append v [], few) in
      bind_step (attempt (os.read_fd fd (4 - length v))) next w w (ok [])
        (ap (λ x. attempt (λ (_ : os.World). x) w) (ended (4 - length v)))
      ∙ rw short (read_loop-IsEnded fuel (v ++ []) (omega (arith, length-append v [], few)))

  -- From a pipe that has ended `read_sync` never returns: after any number of rounds it still goes on.
  pub read_sync-IsEnded :
      (fuel : ℕ) → Path (Outcome (Option ℤ) × os.World) (read_sync fuel fd w) (ok none, w)
  unfolding read_sync
  read_sync-IsEnded fuel =
      bind_step (read_loop fuel fd [])
        (λ v. pure (elim v [ none ↦ none | some bytes ↦ some (from_be_bytes bytes) ])) w w none
        (read_loop-IsEnded fuel [] (omega arith))
