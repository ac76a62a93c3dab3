-- ===== src/Rustjail/Cgroups/Procs/Laws.antt =====
-- What `get_all_procs` (rustjail/src/cgroups/fs/mod.rs) finds, and that it ends.
use Prim.Native.String.{◌++◌}
use mathlib.Core.List.{◌++◌ as append}
use kata_rust_agent.Base.{
  ℕ, zero, suc, ◌<◌, String, true, ◌&&◌, List, [], ◌∷◌, ℤ, ◌≡◌, ◌≢◌, refl, arith, inl, inr, All,
  Bool-cases, Option-cases, str_eq, if◌then◌else◌,
}
use kata_rust_agent.Base.Text.{trim, lines, parse_i32}
use kata_rust_agent.Base.Exec.{Outcome, ok, err, panic}
use kata_rust_agent.Os.{Os}
use kata_rust_agent.Rustjail.Cgroups.Procs.{
  pids_of_lines, append_to, and_then, get_procs, procs_of_entries, get_all_procs,
}

and_then-eq :
    (x : Outcome (List ℤ)) (f g : List ℤ → Outcome (List ℤ))
    → ((m : List ℤ) → f m ≡ g m)
    → and_then x f ≡ and_then x g
and_then-eq (ok m) f g h = h m
and_then-eq (err e) f g h = refl
and_then-eq panic f g h = refl

and_then-returns :
    (x : Outcome (List ℤ)) (f : List ℤ → Outcome (List ℤ))
    → x ≢ panic
    → ((m : List ℤ) → f m ≢ panic)
    → and_then x f ≢ panic
and_then-returns (ok m) f h h' = h' m
and_then-returns (err e) f h h' = λ p. ground (arith, p)
and_then-returns panic f h h' = λ _. h refl

append_to-returns : (m : List ℤ) (x : Outcome (List ℤ)) → x ≢ panic → append_to m x ≢ panic
append_to-returns m (ok more) h = λ p. ground (arith, p)
append_to-returns m (err e) h = λ p. ground (arith, p)
append_to-returns m panic h = λ _. h refl

cons_returns :
    (pid : ℤ) (x : Outcome (List ℤ))
    → x ≢ panic
    → elim x as (λ _. Outcome (List ℤ)) [
      | ok pids ↦ ok (pid ∷ pids)
      | err e ↦ err e
      | panic ↦ panic
    ]
      ≢ panic
cons_returns pid (ok pids) h = λ p. ground (arith, p)
cons_returns pid (err e) h = λ p. ground (arith, p)
cons_returns pid panic h = λ _. h refl

pids_of_lines-returns : (ls : List String) → pids_of_lines ls ≢ panic
unfolding pids_of_lines
pids_of_lines-returns [] = λ p. ground (arith, p)
pids_of_lines-returns (l ∷ ls) = elim (Option-cases (parse_i32 (trim l))) [
  | inl bad ↦ rw (bad, pids_of_lines) (λ p. ground (arith, p))
  | inr (pid, good) ↦
      rw (good, pids_of_lines) (cons_returns pid (pids_of_lines ls) (pids_of_lines-returns ls))
]

module _ ⦃os : Os⦄ (w : os.World) where
  -- What a directory lists after its file of processes is not looked at: the processes of the groups
  -- there are not found.
  pub procs_of_entries-stops :
      (down : String → Outcome (List ℤ)) (dir : String) (before after : List String) (m : List ℤ)
      → os.is_file (dir ++ "/" ++ "cgroup.procs") w ≡ true
      → procs_of_entries down dir w (append before ("cgroup.procs" ∷ after)) m
        ≡ procs_of_entries down dir w (append before ("cgroup.procs" ∷ [])) m
  unfolding procs_of_entries
  procs_of_entries-stops down dir [] after m file = rw file refl
  procs_of_entries-stops down dir (name ∷ before) after m file =
      and_then-eq
        (if os.is_dir (dir ++ "/" ++ name) w then append_to m (down (dir ++ "/" ++ name)) else ok m)
        _ _
        (λ m'. elim (Bool-cases (os.is_file (dir ++ "/" ++ name) w && str_eq name "cgroup.procs")) [
          | inl last ↦ rw last refl
          | inr on ↦ rw on (procs_of_entries-stops down dir before after m' file)
        ])

-- Reading does not panic, and the directories below a directory have a smaller height.
pub record IsTree ⦃os : Os⦄ (w : os.World) (height : String → ℕ) : Type 0 where
  pub read_returns : (p : String) → os.read_to_string p w ≢ panic
  pub read_dir_returns : (p : String) → os.read_dir p w ≢ panic
  pub lower :
      (dir : String) (names : List String)
      → os.read_dir dir w ≡ ok names
      → All
          (λ name.
            os.is_dir (dir ++ "/" ++ name) w ≡ true → height (dir ++ "/" ++ name) < height dir)
          names

module _ ⦃os : Os⦄ (w : os.World) (height : String → ℕ) (tree : IsTree w height) where
  text_returns :
      (o : Outcome String)
      → o ≢ panic
      → elim o as (λ _. Outcome (List ℤ)) [
        | ok text ↦ pids_of_lines (lines text)
        | err e ↦ err e
        | panic ↦ panic
      ]
        ≢ panic
  text_returns (ok text) h = pids_of_lines-returns (lines text)
  text_returns (err e) h = λ p. ground (arith, p)
  text_returns panic h = λ _. h refl

  get_procs-returns : (dir : String) → get_procs dir w ≢ panic
  unfolding get_procs
  get_procs-returns dir =
      text_returns (os.read_to_string (dir ++ "/" ++ "cgroup.procs") w)
        (tree.read_returns (dir ++ "/" ++ "cgroup.procs"))

  procs_of_entries-returns :
      (down : String → Outcome (List ℤ)) (bound : ℕ) (dir : String) (names : List String)
      (m : List ℤ)
      → ((p : String) → height p < bound → down p ≢ panic)
      → All
          (λ name. os.is_dir (dir ++ "/" ++ name) w ≡ true → height (dir ++ "/" ++ name) < bound)
          names
      → procs_of_entries down dir w names m ≢ panic
  unfolding procs_of_entries
  procs_of_entries-returns down bound dir [] m returns low = λ p. ground (arith, p)
  procs_of_entries-returns down bound dir (name ∷ names) m returns (low, lows) =
      and_then-returns
        (if os.is_dir (dir ++ "/" ++ name) w then append_to m (down (dir ++ "/" ++ name)) else ok m)
        _
        (elim (Bool-cases (os.is_dir (dir ++ "/" ++ name) w)) [
          | inl below ↦ rw below (
              append_to-returns m (down (dir ++ "/" ++ name))
                (returns (dir ++ "/" ++ name) (low below)))
          | inr beside ↦ rw beside (λ p. ground (arith, p))
        ])
        (λ m'. elim (Bool-cases (os.is_file (dir ++ "/" ++ name) w && str_eq name "cgroup.procs")) [
          | inl last ↦ rw last (append_to-returns m' (get_procs dir w) (get_procs-returns dir))
          | inr on ↦ rw on (procs_of_entries-returns down bound dir names m' returns lows)
        ])

  entries_returns :
      (down : String → Outcome (List ℤ)) (dir : String) (o : Outcome (List String))
      → o ≢ panic
      → os.read_dir dir w ≡ o
      → ((p : String) → height p < height dir → down p ≢ panic)
      → elim o as (λ _. Outcome (List ℤ)) [
        | ok names ↦ procs_of_entries down dir w names []
        | err e ↦ err e
        | panic ↦ panic
      ]
        ≢ panic
  entries_returns down dir (ok names) h listed returns =
      procs_of_entries-returns down (height dir) dir names [] returns (tree.lower dir names listed)
  entries_returns down dir (err e) h listed returns = λ p. ground (arith, p)
  entries_returns down dir panic h listed returns = λ _. h refl

  -- In a tree of directories a stack as deep as the height of the tree, and one level more, is enough
  -- for `get_all_procs`: it returns.
  pub get_all_procs-returns :
      (depth : ℕ) (dir : String) → height dir < depth → get_all_procs depth dir w ≢ panic
  unfolding get_all_procs
  get_all_procs-returns zero dir h = absurd (omega arith)
  get_all_procs-returns (suc depth) dir h =
      entries_returns (λ path. get_all_procs depth path w) dir (os.read_dir dir w)
        (tree.read_dir_returns dir) refl
        (λ p low. get_all_procs-returns depth p (omega (arith, low, h)))
