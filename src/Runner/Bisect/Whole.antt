-- ===== src/Runner/Bisect/Whole.antt =====
-- The whole of `cmd_bisect` of cli/src/main.rs, on a repository.
pub mod Git
pub mod Done
pub mod Reproduced
pub mod Answers
pub mod Verdict
pub mod Back
pub mod Restored
use halley.Common.{
  ℕ, ◌-◌, String, Bool, true, false, not, Option, none, some, List, [], ◌∷◌, ◌+◌, str_eq, length,
  take, if◌then◌else◌, unwrap_or, ◌||◌, ◌&&◌,
}
use halley.Runner.Bisect.{
  Commit, Bisected, no_commits, same_commits, not_found, too_slow, unconfirmed, first_failing,
  candidate, position, oldest_first, last_hash,
}
use halley.Runner.Bisect.Log.{commits_of}
use halley.Runner.Bisect.Repo.{
  World, Answer, Target, did_well, git_rev_parse, git_current_branch, test_commit, restore_repo,
  Searched, between, exhausted, stopped, shortens, search_repo,
}

-- How the command ends: with an error of git, with a panic, or with a verdict.
pub data Ended : Type 0 where
  git_failed panicked : Ended
  ended : Bisected → Ended

-- What was checked out before: the commit, and the branch, which is empty where there is none.
pub record Origin : Type 0 where
  pub head : String
  pub branch : String

module _ {S : Type 0} (w : World S) (t : Target) where
  abbrev verdict : Commit → Bool → Ended
  verdict c passes = if passes then ended unconfirmed else ended (first_failing c)

  -- The last test of the candidate, and the way back.
  confirmed : Origin → Commit → S → Ended × S
  unfolding test_commit restore_repo
  confirmed o c s =
      let (passes, s') = test_commit w t 3 c.0 s in
      let (returns, s'') = restore_repo w t o.head o.branch s' in
      (if returns then verdict c passes else panicked, s'')

  after_search : Origin → List Commit → Searched S → Ended × S
  unfolding confirmed
  after_search o candidates (exhausted s) = (ended too_slow, s)
  after_search o candidates (stopped s) = (panicked, s)
  after_search o candidates (between lo hi s) =
      if shortens (candidate candidates hi).0
      then confirmed o (candidate candidates hi) s
      else (panicked, s)

  -- The test of the good commit, whose failure is only reported, and the search. The number of
  -- candidates is fuel enough for it.
  pub searched : Origin → List Commit → S → Ended × S
  unfolding after_search test_commit search_repo
  searched o candidates s =
      let hash = (candidate candidates 0).0 in
      let (passes, s') = test_commit w t 1 hash s in
      if passes || shortens hash
      then after_search o candidates
          (search_repo w t (length candidates) candidates 0 (length candidates - 1) s')
      else (panicked, s')

  ranged : Origin → List Commit → Option ℕ → S → Ended × S
  unfolding searched
  ranged o commits none s = (ended not_found, s)
  ranged o commits (some good_idx) s = searched o (oldest_first (take (good_idx + 1) commits)) s

  pub bounded : Origin → (h : String) → List Commit → Option String × S → Ended × S
  unfolding ranged position
  bounded o h commits (none, s) = (git_failed, s)
  bounded o h commits (some good_hash, s) =
      if shortens good_hash && shortens h
      then (if str_eq good_hash h
          then (ended same_commits, s)
          else ranged o commits (position good_hash commits) s)
      else (panicked, s)

  abbrev good_commit : (good_ref : Option String) (last : String) → S → Option String × S
  good_commit none last s = (some last, s)
  good_commit (some r) last s = git_rev_parse w t r s

  with_commits : Origin → (good_ref : Option String) → List Commit → S → Ended × S
  unfolding bounded git_rev_parse
  with_commits o good_ref [] s = (ended no_commits, s)
  with_commits o good_ref ((h, subject) ∷ commits) s =
      bounded o h ((h, subject) ∷ commits) (good_commit good_ref (last_hash h commits) s)

  with_log : Origin → (good_ref : Option String) → Option Answer × S → Ended × S
  unfolding with_commits commits_of
  with_log o good_ref (none, s) = (git_failed, s)
  with_log o good_ref (some a, s) = with_commits o good_ref (commits_of a.stdout) s

  with_branch : (good_ref : Option String) (head : String) → Option String × S → Ended × S
  unfolding with_log
  with_branch good_ref head (branch, s) =
      with_log (record { head = head; branch = unwrap_or branch "" }) good_ref
        (w.git ("log" ∷ "--format=%H %s" ∷ "HEAD" ∷ []) s)

  with_head : (good_ref : Option String) → Option String × S → Ended × S
  unfolding with_branch git_current_branch
  with_head good_ref (none, s) = (git_failed, s)
  with_head good_ref (some head, s) = with_branch good_ref head (git_current_branch w t s)

  in_repo : (good_ref : Option String) → Option Answer × S → Ended × S
  unfolding with_head git_rev_parse
  in_repo good_ref (a, s) =
      if did_well a then with_head good_ref (git_rev_parse w t "HEAD" s) else (git_failed, s)

  unfoldable pub cmd_bisect_whole : (good_ref : Option String) → S → Ended × S
  unfolding in_repo
  cmd_bisect_whole good_ref s = in_repo good_ref (w.git ("rev-parse" ∷ "--git-dir" ∷ []) s)
