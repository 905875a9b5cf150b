-- ===== src/Runner/Bisect/Whole/Verdict.antt =====
-- What `cmd_bisect` answers, from its start to its end.
use mathlib.Core.Path.{subst}
use halley.Common.{
  ℕ, ◌+◌, ◌≤◌, ◌<◌, ◌≡◌, ◌∙◌, String, Bool, true, false, Option, none, some, List, [], ◌∷◌, length,
  take, str_eq,
}
use halley.Runner.Bisect.{Commit, candidate, first_failing, position, last_hash}
use halley.Runner.Bisect.First.{candidates}
use halley.Runner.Bisect.Log.{commits_of}
use halley.Runner.Bisect.Repo.{
  World, Target, Answer, shortens, did_well, git_rev_parse, git_current_branch,
}
use halley.Runner.Bisect.Whole.{
  Ended, ended, bounded, ranged, good_commit, with_commits, with_log, with_branch, with_head,
  in_repo, cmd_bisect_whole,
}
use halley.Runner.Bisect.Whole.Done.{All-take, All-oldest_first}
use halley.Runner.Bisect.Whole.Git.{IsGit, IsLong, log_commits}
use halley.Runner.Bisect.Whole.Back.{AreCommits, last_lem}
use halley.Runner.Bisect.Whole.Restored.{good_lem}
use halley.Runner.Bisect.Whole.Reproduced.{IsReproducible}
use halley.Runner.Bisect.Whole.Answers.{searched_lem}

-- What git answers in the states `IsReady` while `branch` is checked out: that there is a repository, the
-- commit at its head, its log and the hash of the good commit.
pub record IsHistory {S : Type 0} (w : World S) (t : Target) (checked_out : S → String)
    (branch : String) (good_ref : Option String) (IsReady : S → Type 0) (log : List Commit)
    (last good : String) : Type 0 where
  pub is_repo :
      (s : S)
      → IsReady s
      → checked_out s ≡ branch
      → did_well (w.git ("rev-parse" ∷ "--git-dir" ∷ []) s).0 ≡ true
  pub has_head :
      (s : S)
      → IsReady s
      → checked_out s ≡ branch
      → (head : String) × ((git_rev_parse w t "HEAD" s).0 ≡ some head)
  pub has_log :
      (s : S)
      → IsReady s
      → checked_out s ≡ branch
      → log_commits (w.git ("log" ∷ "--format=%H %s" ∷ "HEAD" ∷ []) s).0 ≡ log
  pub has_good :
      (s : S) → IsReady s → checked_out s ≡ branch → (good_commit w t good_ref last s).0 ≡ some good

module _ {S : Type 0} (w : World S) (t : Target) (checked_out : S → String) (branch : String)
    (good_ref : Option String) (IsReady : S → Type 0) (IsCommit : String → Type 0)
    (git : IsGit w t checked_out branch good_ref IsReady IsCommit) (passes : String → Bool)
    (rep : IsReproducible w t checked_out passes IsReady IsCommit) where
  module _ (h subject good : String) (commits : List Commit)
      (history : IsHistory w t checked_out branch good_ref IsReady
        ((h, subject) ∷ commits)
        (last_hash h commits)
        good)
      (good_idx k : ℕ) (ne : str_eq good h ≡ false)
      (at : position good ((h, subject) ∷ commits) ≡ some good_idx) (above : 0 < k)
      (below : k < length (candidates ((h, subject) ∷ commits) good_idx))
      (pass : (i : ℕ)
        → i < k
        → passes (candidate (candidates ((h, subject) ∷ commits) good_idx) i).0 ≡ true)
      (fail : (i : ℕ)
        → k ≤ i
        → i < length (candidates ((h, subject) ∷ commits) good_idx)
        → passes (candidate (candidates ((h, subject) ∷ commits) good_idx) i).0 ≡ false) where
    abbrev Answers : Ended × S → Type 0
    Answers r =
        r.0 ≡ ended (first_failing (candidate (candidates ((h, subject) ∷ commits) good_idx) k))

    ranged_lem :
        (head : String) (o : Option ℕ) (s : S)
        → AreCommits IsCommit ((h, subject) ∷ commits)
        → o ≡ some good_idx
        → IsReady s
        → Answers
            (ranged w t (record { head = head; branch = branch }) ((h, subject) ∷ commits) o s)
    unfolding ranged
    ranged_lem head o s are e ready = rw e (
        searched_lem w t checked_out branch good_ref IsReady IsCommit git passes rep
          (candidates ((h, subject) ∷ commits) good_idx)
          (All-oldest_first (λ c. IsCommit c.0) (take (good_idx + 1) ((h, subject) ∷ commits))
            (All-take (λ c. IsCommit c.0) (good_idx + 1) ((h, subject) ∷ commits) are))
          head k s above below pass fail ready)

    bounded_lem :
        (head : String) (o : Option String) (s : S)
        → AreCommits IsCommit ((h, subject) ∷ commits)
        → o ≡ some good
        → shortens good ≡ true
        → IsReady s
        → Answers (
            bounded w t (record { head = head; branch = branch }) h ((h, subject) ∷ commits) (o, s))
    unfolding bounded
    bounded_lem head o s (p, are) e l ready =
        rw (e, l, git.long_hash h p, ne) (ranged_lem head _ s (p, are) at ready)

    with_commits_lem :
        (head : String) (log : List Commit) (s : S)
        → AreCommits IsCommit ((h, subject) ∷ commits)
        → log ≡ (h, subject) ∷ commits
        → IsReady s
        → checked_out s ≡ branch
        → Answers (with_commits w t (record { head = head; branch = branch }) good_ref log s)
    unfolding with_commits
    with_commits_lem head log s are e ready back =
        let long =
          last_lem w t checked_out branch good_ref IsReady IsCommit git h commits are.0 are.1 in
        let (l, ready', keeps) =
          good_lem w t checked_out branch good_ref IsReady IsCommit git (last_hash h commits) s long
            ready back in
        let named = history.has_good s ready back in
        rw e (
          bounded_lem head (good_commit w t good_ref (last_hash h commits) s).0 _ are named
            (subst IsLong named l) ready')

    with_log_lem :
        (head : String) (o : Option Answer) (s : S)
        → AreCommits IsCommit ((h, subject) ∷ commits)
        → log_commits o ≡ (h, subject) ∷ commits
        → IsReady s
        → checked_out s ≡ branch
        → Answers (with_log w t (record { head = head; branch = branch }) good_ref (o, s))
    unfolding with_log
    with_log_lem head none s are e ready back = cc
    with_log_lem head (some answer) s are e ready back =
        with_commits_lem head (commits_of answer.stdout) s are e ready back

    with_branch_lem :
        (head : String) (o : Option String) (s : S)
        → o ≡ some branch
        → IsReady s
        → checked_out s ≡ branch
        → Answers (with_branch w t good_ref head (o, s))
    unfolding with_branch
    with_branch_lem head o s names ready back =
        let (answer, s') = w.git ("log" ∷ "--format=%H %s" ∷ "HEAD" ∷ []) s in
        let logged = history.has_log s ready back in
        let (ready', keeps) = git.log_keeps s ready in
        rw names (
          with_log_lem head answer s'
            (subst (AreCommits IsCommit) logged (git.logs_commits s ready)) logged ready'
            (keeps ∙ back))

    with_head_lem :
        (head : String) (o : Option String) (s : S)
        → o ≡ some head
        → IsReady s
        → checked_out s ≡ branch
        → Answers (with_head w t good_ref (o, s))
    unfolding with_head git_current_branch
    with_head_lem head o s e ready back =
        let (ready', keeps) = git.symbolic_ref_keeps s ready in
        rw e (with_branch_lem head _ _ (git.names_branch s ready back) ready' (keeps ∙ back))

    in_repo_lem :
        (o : Option Answer) (s : S)
        → did_well o ≡ true
        → IsReady s
        → checked_out s ≡ branch
        → Answers (in_repo w t good_ref (o, s))
    unfolding in_repo git_rev_parse
    in_repo_lem o s well ready back =
        let (head, e) = history.has_head s ready back in
        let (ready', keeps) = git.rev_parse_keeps "HEAD" s ready in
        rw well (
          with_head_lem head (git_rev_parse w t "HEAD" s).0 (git_rev_parse w t "HEAD" s).1 e ready'
            (keeps ∙ back))

    -- Of a repository without local changes, in which a branch is checked out, with a git that there does
    -- what is documented, and runs of the CI that leave no local changes and whose outcome depends on
    -- the commit only; where the good commit is in the log and its hash is not that of the newest one;
    -- and where, of the commits from the good one on, those before the `k`-th pass and the others fail,
    -- `k` not 0: the command ends with the verdict that the `k`-th is the first failing commit.
    pub cmd_bisect_whole-first :
        (s : S)
        → IsReady s
        → checked_out s ≡ branch
        → (cmd_bisect_whole w t good_ref s).0
          ≡ ended (first_failing (candidate (candidates ((h, subject) ∷ commits) good_idx) k))
    unfolding cmd_bisect_whole
    cmd_bisect_whole-first s ready back =
        let (a, s') = w.git ("rev-parse" ∷ "--git-dir" ∷ []) s in
        let (ready', keeps) = git.rev_parse_keeps "--git-dir" s ready in
        in_repo_lem a s' (history.is_repo s ready back) ready' (keeps ∙ back)
