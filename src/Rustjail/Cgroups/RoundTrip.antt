-- ===== src/Rustjail/Cgroups/RoundTrip.antt =====
-- What is written to the file of a limit is read back from it.
use Prim.Native.String.{String, ◌++◌}
use kata_rust_agent.Base.{
  ℕ, ◌^◌, ◌<◌, some, ◌≡◌, refl, arith, ap, ◌∙◌, ℤ, pos, negsuc, inl, inr, Bool-cases, ltb,
  if◌then◌else◌,
}
use kata_rust_agent.Base.Print.{show_ℕ}
use kata_rust_agent.Base.Print.RoundTrip.{
  IsEnd, bare, line, trim-digits, contains-digits, show_ℕ-AllDigits, parse_u64-show_ℕ,
}
use kata_rust_agent.Base.Text.{contains, trim, parse_u64}
use kata_rust_agent.Base.Exec.{Exec, Outcome, ok, parse_int, pure, or_raise, ◌>>=◌}
use kata_rust_agent.Base.Exec.Laws.{bind_step}
use kata_rust_agent.Oci.Resources.{LinuxResources}
use kata_rust_agent.Os.{Os}
use kata_rust_agent.Rustjail.Cgroups.{write_file, read_file, get_param_u64}
use kata_rust_agent.Rustjail.Cgroups.Resources.{show_limit, set_pids}
use kata_rust_agent.Rustjail.Cgroups.Stats.{PidsStats, get_pids_stats}

-- a file that shows what was last written to it, with a line break or without
unfoldable pub Remembers : ⦃os : Os⦄ → String → Type 0
Remembers ⦃os⦄ p =
    (v : String) (w w' : os.World)
    → os.write p v w ≡ (ok tt, w')
    → (tail : String) × IsEnd tail × (os.read_to_string p w' ≡ ok (v ++ tail))

-- the limit that the statistics report: none is 0
abbrev pub reported : ℤ → ℕ
reported (pos n) = n
reported (negsuc n) = 0

abbrev pub limit_of : {S : Type 0} → String → Exec S ℕ
limit_of c = if contains c "max" then pure 0 else or_raise (parse_u64 (trim c)) parse_int

-- the text of `pids.max` is understood
limit_of-max :
    {S : Type 0} (tail : String) (w : S)
    → IsEnd tail
    → Path (Outcome ℕ × S) (limit_of ("max" ++ tail) w) (ok 0, w)
unfolding contains
limit_of-max _ w bare = refl
limit_of-max _ w line = refl

limit_of-show_ℕ :
    {S : Type 0} (n : ℕ) (tail : String) (w : S)
    → n < 2 ^ 64
    → IsEnd tail
    → Path (Outcome ℕ × S) (limit_of (show_ℕ n ++ tail) w) (ok n, w)
limit_of-show_ℕ n tail w small h =
    let (all, more) = show_ℕ-AllDigits n in
    rw
      (
        contains-digits (show_ℕ n) tail all h,
        trim-digits (show_ℕ n) tail all more h,
        parse_u64-show_ℕ n small,
      )
      refl

limit_of-show_limit :
    {S : Type 0} (limit : ℤ) (tail : String) (w : S)
    → reported limit < 2 ^ 64
    → IsEnd tail
    → Path (Outcome ℕ × S) (limit_of (show_limit limit ++ tail) w) (ok (reported limit), w)
limit_of-show_limit (negsuc n) tail w small h = limit_of-max tail w h
limit_of-show_limit (pos n) tail w small h = elim (Bool-cases (ltb 0 n)) [
  | inl some_limit ↦ rw some_limit (limit_of-show_ℕ n tail w small h)
  | inr nothing ↦
      let none_set : n ≡ 0 = ground (arith, nothing) in
      rw nothing (rw none_set (limit_of-max tail w h))
]

module _ ⦃os : Os⦄ (dir : String) where
  -- The limit of processes that `Pids::set` writes is the one that `Pids::get_stats` reports, as long as
  -- the file of the limit shows what was last written to it: a limit that is not positive is written as
  -- no limit and reported as 0.
  pub get_pids_stats-set_pids :
      (r : LinuxResources) (limit : ℤ) (current : ℕ) (w w' : os.World)
      → r.pids ≡ some limit
      → reported limit < 2 ^ 64
      → Remembers (dir ++ "/" ++ "pids.max")
      → set_pids dir r w ≡ (ok tt, w')
      → get_param_u64 dir "pids.current" w' ≡ (ok current, w')
      → Path
          (Outcome PidsStats × os.World)
          (get_pids_stats dir w')
          (ok (record { current = current; limit = reported limit }), w')
  unfolding Remembers set_pids get_pids_stats write_file read_file
  get_pids_stats-set_pids r limit current w w' has small remembers written counted =
      let (tail, end, shown) = remembers (show_limit limit) w w' (rw has at written) in
      let report : ℕ → ℕ → Exec os.World PidsStats =
        λ n m. pure (record { current = n; limit = m }) in
      let read_limit : ℕ → Exec os.World PidsStats =
        λ n. read_file dir "pids.max" >>= λ c. limit_of c >>= report n in
      bind_step (get_param_u64 dir "pids.current") read_limit w' w' current counted
      ∙ bind_step (read_file dir "pids.max") (λ c. limit_of c >>= report current) w' w'
          (show_limit limit ++ tail) (ap (λ o. (o, w')) shown)
      ∙ bind_step (limit_of (show_limit limit ++ tail)) (report current) w' w' (reported limit)
          (limit_of-show_limit limit tail w' small end)
