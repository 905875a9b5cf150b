-- ===== src/Runner/Bisect/Whole/Git.antt =====
-- What `cmd_bisect` relies on: git, in a repository with no local changes, and the runs of the CI.
use halley.Common.{
  ℕ, zero, suc, ◌+◌, ◌==◌, ◌≡◌, String, Bool, true, false, Option, none, some, List, [], ◌∷◌, All,
  str_eq, if◌then◌else◌, Bool-cases, inl, inr,
}
use halley.Runner.Bisect.{Commit}
use halley.Runner.Bisect.Log.{commits_of}
use halley.Runner.Bisect.Repo.{
  World, Target, Answer, shortens, did_well, trimmed, ci_launch, checkout, run_ci_at_commit,
  runs_loop, test_commit,
}

abbrev pub log_commits : Option Answer → List Commit
log_commits none = []
log_commits (some a) = commits_of a.stdout

abbrev pub IsLong : Option String → Type 0
IsLong none = Unit
IsLong (some hash) = shortens hash ≡ true

-- `IsReady` are the states of the repository in which it has `branch` and no local changes, that is,
-- nothing over which git would refuse a checkout; and `IsCommit` are the full hashes of its commits,
-- which have eight characters or more. In such states: questions
-- change nothing; where `branch` is checked out, git names it; the log is of commits; the good commit,
-- if one is named, has a hash of eight characters or more, or git has none for it; and `branch` can be
-- checked out. A checkout of a commit, done or refused, leaves no local changes, and neither does a run
-- of the CI.
pub record IsGit {S : Type 0} (w : World S) (t : Target) (checked_out : S → String)
    (branch : String) (good_ref : Option String) (IsReady : S → Type 0) (IsCommit : String → Type 0)
    : Type 0 where
  pub is_branch : str_eq branch "" ≡ false
  pub long_hash : (c : String) → IsCommit c → shortens c ≡ true
  pub rev_parse_keeps :
      (r : String) (s : S)
      → IsReady s
      → IsReady (w.git ("rev-parse" ∷ r ∷ []) s).1
        × (checked_out (w.git ("rev-parse" ∷ r ∷ []) s).1 ≡ checked_out s)
  pub symbolic_ref_keeps :
      (s : S)
      → IsReady s
      → IsReady (w.git ("symbolic-ref" ∷ "--short" ∷ "HEAD" ∷ []) s).1
        × (checked_out (w.git ("symbolic-ref" ∷ "--short" ∷ "HEAD" ∷ []) s).1 ≡ checked_out s)
  pub log_keeps :
      (s : S)
      → IsReady s
      → IsReady (w.git ("log" ∷ "--format=%H %s" ∷ "HEAD" ∷ []) s).1
        × (checked_out (w.git ("log" ∷ "--format=%H %s" ∷ "HEAD" ∷ []) s).1 ≡ checked_out s)
  pub names_branch :
      (s : S)
      → IsReady s
      → checked_out s ≡ branch
      → trimmed (w.git ("symbolic-ref" ∷ "--short" ∷ "HEAD" ∷ []) s).0 ≡ some branch
  pub logs_commits :
      (s : S)
      → IsReady s
      → All (λ c. IsCommit c.0) (log_commits (w.git ("log" ∷ "--format=%H %s" ∷ "HEAD" ∷ []) s).0)
  pub long_revision :
      (r : String) (s : S)
      → good_ref ≡ some r
      → IsReady s
      → IsLong (trimmed (w.git ("rev-parse" ∷ r ∷ []) s).0)
  pub to_branch :
      (s : S)
      → IsReady s
      → (did_well (w.git ("checkout" ∷ branch ∷ []) s).0 ≡ true)
        × (checked_out (w.git ("checkout" ∷ branch ∷ []) s).1 ≡ branch)
  pub checkout_stays :
      (c : String) (s : S)
      → IsCommit c
      → IsReady s
      → IsReady (w.git ("checkout" ∷ c ∷ "--" ∷ []) s).1
  pub detach_stays :
      (c : String) (s : S)
      → IsCommit c
      → IsReady s
      → IsReady (w.git ("checkout" ∷ "--detach" ∷ c ∷ []) s).1
  pub run_stays : (s : S) → IsReady s → IsReady (w.launch (ci_launch t) s).1

module _ {S : Type 0} (w : World S) (t : Target) (checked_out : S → String) (branch : String)
    (good_ref : Option String) (IsReady : S → Type 0) (IsCommit : String → Type 0)
    (git : IsGit w t checked_out branch good_ref IsReady IsCommit) where
  pub checkout-IsReady : (c : String) (s : S) → IsCommit c → IsReady s → IsReady (checkout w t c s)
  unfolding checkout
  checkout-IsReady c s commit ready =
      let (a, s') = w.git ("checkout" ∷ c ∷ "--" ∷ []) s in
      let stays = git.checkout_stays c s commit ready in
      elim (Bool-cases (did_well a)) [
        | inl well ↦ rw well stays
        | inr ill ↦ rw ill (git.detach_stays c s' commit stays)
      ]

  pub run-IsReady : (s : S) → IsReady s → IsReady (run_ci_at_commit w t s).1
  unfolding run_ci_at_commit
  run-IsReady s ready = git.run_stays s ready

  early_lem :
      (failed passed : Bool) (s : S) (rest : Bool × S)
      → IsReady s
      → IsReady rest.1
      → IsReady (if failed then (false, s) else if passed then (true, s) else rest).1
  early_lem true passed s rest p q = p
  early_lem false true s rest p q = p
  early_lem false false s rest p q = q

  runs_loop-IsReady :
      (n more passes fails : ℕ) (s : S)
      → IsReady s
      → IsReady (runs_loop w t n more passes fails s).1
  unfolding runs_loop
  runs_loop-IsReady n zero passes fails s ready = ready
  runs_loop-IsReady n (suc more) passes fails s ready =
      let (passed, s') = run_ci_at_commit w t s in
      let p = if passed then passes + 1 else passes in
      let f = if passed then fails else fails + 1 in
      early_lem (f == n) (p == n) s' (runs_loop w t n more p f s') (run-IsReady s ready)
        (runs_loop-IsReady n more p f s' (run-IsReady s ready))

  pub test_commit-IsReady :
      (n : ℕ) (c : String) (s : S) → IsCommit c → IsReady s → IsReady (test_commit w t n c s).1
  unfolding test_commit
  test_commit-IsReady n c s commit ready =
      runs_loop-IsReady n n 0 0 (checkout w t c s) (checkout-IsReady c s commit ready)
