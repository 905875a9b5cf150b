-- ===== src/Tests/Repos.antt =====
-- A bisection in a small repository of three commits.
use halley.Common.{
  ◌||◌, ◌&&◌, not, ◌⊎◌, inl, inr, Bool-cases, ℕ, zero, suc, ◌≡◌, ◌≤◌, ◌<◌, length, arith, Bool,
  refl, String, true, false, Option, none, some, List, [], ◌∷◌, str_eq, if◌then◌else◌,
}
use halley.Common.Text.{trim, is_whitespace}
use halley.Runner.Bisect.{Commit, candidate, last_hash, position, oldest_first, first_failing}
use halley.Runner.Bisect.First.{candidates}
use halley.Runner.Bisect.Log.{commits_of, log_of, IsPrintable, commits_of-log_of}
use halley.Runner.Bisect.Repo.{World, Answer, Target, shortens, ran_well, git_rev_parse}
use halley.Runner.Bisect.Whole.{ended, cmd_bisect_whole}
use halley.Runner.Bisect.Whole.Git.{IsGit}
use halley.Runner.Bisect.Whole.Back.{IsBack}
use halley.Runner.Bisect.Whole.Restored.{cmd_bisect_whole-IsBack}
use halley.Runner.Bisect.Whole.Reproduced.{IsReproducible}
use halley.Runner.Bisect.Whole.Verdict.{IsHistory, cmd_bisect_whole-first}
use halley.Tests.Runs.{test_machine, test_paths}

abbrev two_commits : List Commit
two_commits = ("b", "x y") ∷ ("a", "") ∷ []

two_words-IsPrintable : IsPrintable ("b", "x y")
unfolding is_whitespace
two_words-IsPrintable = (
  refl,
  (refl, tt),
  ((refl, tt), (refl, tt)),
  ((refl, (refl, (refl, tt))), (refl, (refl, (refl, tt)))),
)

no_words-IsPrintable : IsPrintable ("a", "")
unfolding is_whitespace
no_words-IsPrintable = (refl, (refl, tt), ((refl, tt), (refl, tt)), (tt, tt))

commits_of-log_of_example : commits_of (log_of two_commits) ≡ two_commits
commits_of-log_of_example =
    commits_of-log_of two_commits (two_words-IsPrintable, (no_words-IsPrintable, tt))

-- What is checked out, and whether there are local changes.
record Checkout : Type 0 where
  pub head : String
  pub changed : Bool

abbrev done : (stdout : String) → Option Answer
done stdout = some (record { success = true; stdout = stdout })

abbrev refused : Option Answer
refused = some (record { success = false; stdout = "" })

abbrev test_log : String
test_log = "aaaaaaaa3 docs\naaaaaaaa2 break it\naaaaaaaa1 first\n"

abbrev is_known : String → Bool
is_known r =
    str_eq r "main" || (str_eq r "aaaaaaaa1" || (str_eq r "aaaaaaaa2" || str_eq r "aaaaaaaa3"))

-- A checkout is refused where the revision is unknown or there are local changes.
abbrev checkout_of : String → Checkout → Option Answer × Checkout
checkout_of r s =
    if is_known r && not s.changed then (done "", record s { head = r }) else (refused, s)

abbrev test_git : List String → Checkout → Option Answer × Checkout
test_git [] s = (none, s)
test_git (command ∷ []) s = (refused, s)
test_git (command ∷ r ∷ args) s =
    if str_eq command "checkout"
    then checkout_of r s
    else if str_eq command "log"
    then (done test_log, s)
    else if str_eq command "rev-parse"
    then (if str_eq r "--git-dir" then done ".git\n" else done "aaaaaaaa3\n", s)
    else (if str_eq s.head "main" then done "main\n" else refused, s)

-- An exit code.
abbrev status_at : String → Option ℕ
status_at c = if str_eq c "aaaaaaaa1" then some 0 else some 1

-- The fixture passes at the first commit only.
abbrev test_world : World Checkout
test_world = record { git = test_git; launch = λ l s. (some (status_at s.head), s) }

abbrev IsReady : Checkout → Type 0
IsReady s = s.changed ≡ false

abbrev IsCommit : String → Type 0
IsCommit c = (c ≡ "aaaaaaaa1") ⊎ ((c ≡ "aaaaaaaa2") ⊎ (c ≡ "aaaaaaaa3"))

abbrev test_target : Target
test_target = record {
  machine = test_machine;
  paths = test_paths;
  current_exe = none;
  repo_dir = test_paths.config_dir;
  config_path = record { is_absolute = false; names = "halley.config.json" ∷ [] };
  fixture_slug = "login";
}

long_lem : (c : String) → IsCommit c → shortens c ≡ true
long_lem c (inl e) = rw e refl
long_lem c (inr (inl e)) = rw e refl
long_lem c (inr (inr e)) = rw e refl

known_lem : (c : String) → IsCommit c → is_known c ≡ true
known_lem c (inl e) = rw e refl
known_lem c (inr (inl e)) = rw e refl
known_lem c (inr (inr e)) = rw e refl

stays_lem : (r : String) (s : Checkout) → IsReady s → IsReady (checkout_of r s).1
stays_lem r s ready = elim (Bool-cases (is_known r)) [
  | inl known ↦ rw (known, ready) refl
  | inr unknown ↦ rw unknown ready
]

test_world-IsGit : IsGit test_world test_target (λ s. s.head) "main" none IsReady IsCommit
unfolding trim commits_of
test_world-IsGit = record {
  is_branch = refl;
  long_hash = long_lem;
  rev_parse_keeps = λ r s ready. (ready, refl);
  symbolic_ref_keeps = λ s ready. (ready, refl);
  log_keeps = λ s ready. (ready, refl);
  names_branch = λ s ready e. rw e refl;
  logs_commits = λ s ready. (inr (inr refl), (inr (inl refl), (inl refl, tt)));
  long_revision = λ r s named ready. cc;
  to_branch = λ s ready. rw ready (refl, refl);
  checkout_stays = λ c s commit ready. stays_lem c s ready;
  detach_stays = λ c s commit ready. ready;
  run_stays = λ s ready. ready;
}

abbrev clean : Checkout
clean = record { head = "main"; changed = false }

bisect_test :
    cmd_bisect_whole test_world test_target none clean
    ≡ (ended (first_failing ("aaaaaaaa2", "break it")), clean)
unfolding cmd_bisect_whole oldest_first
bisect_test = refl

cmd_bisect_whole-IsBack_example :
    IsBack (λ s. s.head) "main" (cmd_bisect_whole test_world test_target none clean)
cmd_bisect_whole-IsBack_example =
    cmd_bisect_whole-IsBack test_world test_target (λ s. s.head) "main" none IsReady IsCommit
      test_world-IsGit clean refl refl

test_passes : String → Bool
test_passes c = ran_well (some (status_at c))

test_world-IsReproducible :
    IsReproducible test_world test_target (λ s. s.head) test_passes IsReady IsCommit
unfolding test_passes
test_world-IsReproducible = record {
  checks_out = λ c s commit ready. rw (known_lem c commit, ready) (refl, refl);
  runs = λ s ready. (refl, refl);
}

older_commits : List Commit
older_commits = ("aaaaaaaa2", "break it") ∷ ("aaaaaaaa1", "first") ∷ []

test_world-IsHistory :
    IsHistory test_world test_target
      (λ s. s.head)
      "main"
      none
      IsReady
      (("aaaaaaaa3", "docs") ∷ older_commits)
      (last_hash "aaaaaaaa3" older_commits)
      "aaaaaaaa1"
unfolding trim commits_of older_commits git_rev_parse
test_world-IsHistory = record {
  is_repo = λ s ready e. refl;
  has_head = λ s ready e. ("aaaaaaaa3", refl);
  has_log = λ s ready e. refl;
  has_good = λ s ready e. refl;
}

first_passes :
    (i : ℕ)
    → i < 1
    → test_passes (candidate (candidates (("aaaaaaaa3", "docs") ∷ older_commits) 2) i).0 ≡ true
unfolding test_passes older_commits oldest_first
first_passes zero lt = refl
first_passes (suc i) lt = absurd (omega (arith, lt))

others_fail :
    (i : ℕ)
    → 1 ≤ i
    → i < length (candidates (("aaaaaaaa3", "docs") ∷ older_commits) 2)
    → test_passes (candidate (candidates (("aaaaaaaa3", "docs") ∷ older_commits) 2) i).0 ≡ false
unfolding test_passes older_commits oldest_first
others_fail zero le lt = absurd (omega (arith, le))
others_fail (suc zero) le lt = refl
others_fail (suc (suc zero)) le lt = refl
others_fail (suc (suc (suc i))) le lt = absurd (omega (arith, lt))

cmd_bisect_whole-first_example :
    (cmd_bisect_whole test_world test_target none clean).0
    ≡ ended (first_failing ("aaaaaaaa2", "break it"))
unfolding older_commits position oldest_first
cmd_bisect_whole-first_example =
    cmd_bisect_whole-first test_world test_target (λ s. s.head) "main" none IsReady IsCommit
      test_world-IsGit test_passes test_world-IsReproducible "aaaaaaaa3" "docs" "aaaaaaaa1"
      older_commits test_world-IsHistory 2 1 refl refl (omega arith) (omega arith) first_passes
      others_fail clean refl refl
