-- ===== src/Sandbox/Online/Laws.antt =====
-- How many processors a request turns on (`online_resources` of src/sandbox.rs).
use Prim.Native.String.{◌++◌}
use kata_rust_agent.Base.{
  ℕ, ◌+◌, ◌≤◌, ◌<◌, String, Bool, List, [], ◌∷◌, ◌≡◌, sym, ap, ◌∙◌, arith, inl, inr, Bool-cases,
  pos, if◌then◌else◌,
}
use kata_rust_agent.Base.Text.{trim, contains}
use kata_rust_agent.Base.Exec.{Exec, Outcome, ok, pure, ◌>>=◌, ◌>>◌}
use kata_rust_agent.Base.Exec.Laws.{bind_ok, read_then, value}
use kata_rust_agent.Os.{Os}
use kata_rust_agent.Sandbox.Online.{is_enough, counted, online_entries, online_resources}

module _ ⦃os : Os⦄ (is_match : String → String → Bool) (path pattern : String)
    (writes : os.World → ℕ)
    (counts : (file : String) (w : os.World) → writes (os.write file "1" w).1 ≡ writes w + 1) where
  -- what is left of a run that has turned on `count`, and reports `n` in the end
  abbrev IsCounted : ℕ → ℕ → ℕ → os.World → os.World → Type 0
  IsCounted num count n w w' = (n ≤ num) × (writes w' + count ≡ writes w + n)

  stop-IsCounted :
      (num count n : ℕ) (w w' : os.World)
      → count ≤ num
      → Path (Outcome ℕ × os.World) (ok count, w) (ok n, w')
      → IsCounted num count n w w'
  stop-IsCounted num count n w w' room h =
      let same : count ≡ n = value count n w w' h in
      let still : writes w ≡ writes w' = ap (λ (x : Outcome ℕ × os.World). writes x.1) h in
      (ground (arith, room, same), ground (arith, same, still))

  step-IsCounted :
      (num count n : ℕ) (next : Exec os.World ℕ) (w w' : os.World)
      → count < num
      → (count + 1 < num → next w ≡ (ok n, w') → IsCounted num (count + 1) n w w')
      → (if is_enough (pos num) (count + 1) then pure (count + 1) else next) w ≡ (ok n, w')
      → IsCounted num (count + 1) n w w'
  step-IsCounted num count n next w w' room later h =
      elim (Bool-cases (is_enough (pos num) (count + 1))) [
        | inl enough ↦ stop-IsCounted num (count + 1) n w w' (ground (arith, room)) (rw enough at h)
        | inr more ↦ later (ground (arith, more, room)) (rw more at h)
      ]

  -- the call that turns one on
  written-IsCounted :
      (num count n : ℕ) (file : String) (w t w' : os.World) (u : Unit {0})
      → os.write file "1" w ≡ (ok u, t)
      → IsCounted num (count + 1) n t w'
      → IsCounted num count n w w'
  written-IsCounted num count n file w t w' u e (small, total) =
      let one : writes t ≡ writes w + 1 =
        ap (λ (x : Outcome (Unit {0}) × os.World). writes x.1) (sym e) ∙ counts file w in
      (small, ground (arith, total, one))

  online_entries-IsCounted :
      (num : ℕ) (names : List String) (count n : ℕ) (w w' : os.World)
      → count < num
      → online_entries is_match path pattern (pos num) names count w ≡ (ok n, w')
      → IsCounted num count n w w'
  unfolding online_entries
  online_entries-IsCounted num [] count n w w' room h =
      stop-IsCounted num count n w w' (ground (arith, room)) h
  online_entries-IsCounted num (name ∷ names) count n w w' room h =
      elim (Bool-cases (is_match pattern name)) [
        | inr other ↦ online_entries-IsCounted num names count n w w' room (rw other at h)
        | inl matching ↦
            let file = path ++ "/" ++ name ++ "/" ++ "online" in
            let next : ℕ → Exec os.World ℕ =
              λ k. online_entries is_match path pattern (pos num) names k in
            let stop : Exec os.World ℕ =
              if is_enough (pos num) (count + 1) then pure (count + 1) else next (count + 1) in
            let turn_on : Exec os.World ℕ = os.write file "1" >> stop in
            let (c, _, h1) =
              read_then (os.read_to_string file w)
                (λ c. if contains (trim c) "0" then turn_on else next count) w n w'
                (rw matching at h) in
            elim (Bool-cases (contains (trim c) "0")) [
              | inr online ↦ online_entries-IsCounted num names count n w w' room (rw online at h1)
              | inl offline ↦
                  let (u, t, written, h2) =
                    bind_ok (os.write file "1") (λ _. stop) w n w' (rw offline at h1) in
                  written-IsCounted num count n file w t w' u written (
                    step-IsCounted num count n (next (count + 1)) t w' room
                      (λ more h3. online_entries-IsCounted num names (count + 1) n t w' more h3) h2)
            ]
      ]

  -- For any count of the writes of "1" to the files of the system: a request for a number of processors
  -- that succeeds has written as many as it reports, which are at most as many as were asked for.
  pub online_resources_bound :
      (num n : ℕ) (w w' : os.World)
      → 0 < num
      → online_resources is_match path pattern (pos num) w ≡ (ok n, w')
      → (n ≤ num) × (writes w' ≡ writes w + n)
  unfolding online_resources
  online_resources_bound num n w w' some_cpus h =
      let report : ℕ → Exec os.World ℕ = λ count. pure (counted (pos num) count) in
      let (names, _, h1) =
        read_then (os.read_dir path w)
          (λ names. online_entries is_match path pattern (pos num) names 0 >>= report) w n w' h in
      let (count, t, turned, h2) =
        bind_ok (online_entries is_match path pattern (pos num) names 0) report w n w' h1 in
      let (small, total) = online_entries-IsCounted num names 0 count w t some_cpus turned in
      let same : counted (pos num) count ≡ n = value (counted (pos num) count) n t w' h2 in
      let still : writes t ≡ writes w' = ap (λ (x : Outcome ℕ × os.World). writes x.1) h2 in
      (ground (arith, some_cpus, same, small), ground (arith, some_cpus, same, still, total))
