-- ===== src/Runner/Bisect/Repo.antt =====
-- The repository in which `cmd_bisect` of cli/src/main.rs works: its calls of git, its runs of the CI at
-- a commit, and the search over them.
use Prim.Native.Nat.{ℕ, zero, suc}
use text.Mathlib.Text.{is_char_boundary}
use halley.Common.{
  ◌+◌, ◌/◌, String, Bool, true, false, not, Option, none, some, List, [], ◌∷◌, ◌++◌, ltb, ◌==◌,
  str_eq, is_some, if◌then◌else◌,
}
use halley.Common.Text.{trim}
use halley.Runner.Paths.{PathBuf, display}
use halley.Runner.Setup.{Machine, ResolvedPaths}
use halley.Runner.Launch.{Launch, only_if, is_success, noop_key}
use halley.Runner.Bisect.{Commit, candidate}

pub record Answer : Type 0 where
  pub success : Bool
  pub stdout : String

-- What the bisection asks of the machine, each call with the repository as it finds and leaves it: git,
-- and the launch of a process, of which the exit status is kept. A call that cannot be made is none.
pub record World (S : Type 0) : Type 0 where
  pub git : List String → S → Option Answer × S
  pub launch : Launch → S → Option (Option ℕ) × S

-- The launch of `halley ci` for one fixture.
pub record Target : Type 0 where
  pub machine : Machine
  pub paths : ResolvedPaths
  pub current_exe : Option PathBuf
  pub repo_dir : PathBuf
  pub config_path : PathBuf
  pub fixture_slug : String

abbrev exe_of : Option PathBuf → String
exe_of none = "halley"
exe_of (some p) = display p

abbrev sdk_setting : Option String → List (String × String)
sdk_setting none = []
sdk_setting (some sdk) = ("HALLEY_SDK_PY_PATH", sdk) ∷ []

unfoldable pub ci_launch : Target → Launch
ci_launch t = record {
  program = exe_of t.current_exe;
  args =
      "--config"
      ∷ display t.config_path
      ∷ "ci"
      ∷ "--only"
      ∷ t.fixture_slug
      ∷ "--junit"
      ∷ "/dev/null"
      ∷ [];
  current_dir = t.repo_dir;
  envs =
      sdk_setting (t.machine.var "HALLEY_SDK_PY_PATH")
      ++ (("PYTHONPATH", t.paths.pypath)
          ∷ only_if (not (is_some (t.machine.var "OPENAI_API_KEY"))) ("OPENAI_API_KEY", noop_key));
}

abbrev pub ran_well : Option (Option ℕ) → Bool
ran_well none = false
ran_well (some status) = is_success status

abbrev pub did_well : Option Answer → Bool
did_well none = false
did_well (some a) = a.success

abbrev pub trimmed : Option Answer → Option String
trimmed none = none
trimmed (some a) = if a.success then some (trim a.stdout) else none

-- How the search ends: between two neighbours, out of fuel, or with a panic at `&hash[..8]`.
pub data Searched (S : Type 0) : Type 0 where
  between : (lo hi : ℕ) → S → Searched S
  exhausted stopped : S → Searched S

-- Whether `&hash[..8]` is a text.
abbrev pub shortens : String → Bool
shortens hash = is_char_boundary hash 8

module _ {S : Type 0} (w : World S) (t : Target) where
  unfoldable pub run_ci_at_commit : S → Bool × S
  unfolding ci_launch
  run_ci_at_commit s = let (status, s') = w.launch (ci_launch t) s in (ran_well status, s')

  -- `git_rev_parse` and `git_current_branch`, none for an error.
  unfoldable pub git_rev_parse : (git_ref : String) → S → Option String × S
  git_rev_parse git_ref s = let (a, s') = w.git ("rev-parse" ∷ git_ref ∷ []) s in (trimmed a, s')

  unfoldable pub git_current_branch : S → Option String × S
  git_current_branch s =
      let (a, s') = w.git ("symbolic-ref" ∷ "--short" ∷ "HEAD" ∷ []) s in (trimmed a, s')

  abbrev detached : (commit : String) → Option Answer × S → S
  detached commit (a, s) =
      if did_well a then s else (w.git ("checkout" ∷ "--detach" ∷ commit ∷ []) s).1

  unfoldable pub checkout : (commit : String) → S → S
  checkout commit s = detached commit (w.git ("checkout" ∷ commit ∷ "--" ∷ []) s)

  -- The loop of `test_commit_reliable_n`, with `more` runs to come.
  unfoldable pub runs_loop : (n more pass_count fail_count : ℕ) → S → Bool × S
  unfolding run_ci_at_commit
  runs_loop n zero pass_count fail_count s = (ltb fail_count n, s)
  runs_loop n (suc more) pass_count fail_count s =
      let (passed, s') = run_ci_at_commit s in
      let passes = if passed then pass_count + 1 else pass_count in
      let fails = if passed then fail_count else fail_count + 1 in
      let rest = runs_loop n more passes fails s' in
      if fails == n then (false, s') else if passes == n then (true, s') else rest

  unfoldable pub test_commit : (n : ℕ) (commit : String) → S → Bool × S
  unfolding runs_loop checkout
  test_commit n commit s = runs_loop n n 0 0 (checkout commit s)

  -- `restore_repo`: to the branch, and where there is none or that fails, to the commit, whose short form
  -- is then printed. The answer is whether it returns.
  abbrev to_head : (orig_head : String) → S → Bool × S
  to_head orig_head s = (shortens orig_head, (w.git ("checkout" ∷ orig_head ∷ []) s).1)

  abbrev from_branch : (orig_head : String) → Option Answer × S → Bool × S
  from_branch orig_head (a, s) = if did_well a then (true, s) else to_head orig_head s

  unfoldable pub restore_repo : (orig_head orig_branch : String) → S → Bool × S
  restore_repo orig_head orig_branch s =
      if str_eq orig_branch ""
      then to_head orig_head s
      else from_branch orig_head (w.git ("checkout" ∷ orig_branch ∷ []) s)

  -- The loop over `lo` and `hi`, with three runs for a commit.
  unfoldable pub search_repo : (fuel : ℕ) (candidates : List Commit) (lo hi : ℕ) → S → Searched S
  unfolding test_commit
  search_repo zero candidates lo hi s = if ltb (lo + 1) hi then exhausted s else between lo hi s
  search_repo (suc fuel) candidates lo hi s =
      let mid = (lo + hi) / 2 in
      let hash = (candidate candidates mid).0 in
      let (passes, s') = test_commit 3 hash s in
      let upper = search_repo fuel candidates mid hi s' in
      let lower = search_repo fuel candidates lo mid s' in
      if ltb (lo + 1) hi
      then (if shortens hash then (if passes then upper else lower) else stopped s)
      else between lo hi s
