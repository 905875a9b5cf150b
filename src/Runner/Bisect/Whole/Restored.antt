-- ===== src/Runner/Bisect/Whole/Restored.antt =====
-- What is checked out when `cmd_bisect` is done.
use halley.Common.{
  ◌≡◌, refl, ◌∙◌, String, true, Option, none, some, List, [], ◌∷◌, Bool-cases, inl, inr,
}
use halley.Runner.Bisect.{Commit, last_hash}
use halley.Runner.Bisect.Log.{commits_of}
use halley.Runner.Bisect.Repo.{
  World, Target, Answer, shortens, did_well, git_rev_parse, git_current_branch,
}
use halley.Runner.Bisect.Whole.{
  with_commits, with_log, with_branch, with_head, in_repo, cmd_bisect_whole, good_commit,
}
use halley.Runner.Bisect.Whole.Git.{IsGit, IsLong, log_commits}
use halley.Runner.Bisect.Whole.Back.{IsBack, AreCommits, last_lem, bounded_lem}

module _ {S : Type 0} (w : World S) (t : Target) (checked_out : S → String) (branch : String)
    (good_ref : Option String) (IsReady : S → Type 0) (IsCommit : String → Type 0)
    (git : IsGit w t checked_out branch good_ref IsReady IsCommit) where
  abbrev IsGood : Option String × S → Type 0
  IsGood (o, s) = IsLong o × IsReady s × (checked_out s ≡ branch)

  named_lem :
      (o : Option String) (last : String) (s : S)
      → good_ref ≡ o
      → shortens last ≡ true
      → IsReady s
      → checked_out s ≡ branch
      → IsGood (good_commit w t o last s)
  unfolding git_rev_parse
  named_lem none last s named l ready e = (l, ready, e)
  named_lem (some r) last s named l ready e =
      let (ready', keeps) = git.rev_parse_keeps r s ready in
      (git.long_revision r s named ready, ready', keeps ∙ e)

  pub good_lem :
      (last : String) (s : S)
      → shortens last ≡ true
      → IsReady s
      → checked_out s ≡ branch
      → IsLong (good_commit w t good_ref last s).0
        × IsReady (good_commit w t good_ref last s).1
        × (checked_out (good_commit w t good_ref last s).1 ≡ branch)
  good_lem last s l ready e = named_lem good_ref last s refl l ready e

  with_commits_lem :
      (head : String) (commits : List Commit) (s : S)
      → AreCommits IsCommit commits
      → IsReady s
      → checked_out s ≡ branch
      → IsBack checked_out branch
          (with_commits w t (record { head = head; branch = branch }) good_ref commits s)
  unfolding with_commits
  with_commits_lem head [] s a ready e = (tt, e)
  with_commits_lem head ((h, subject) ∷ commits) s (p, a) ready e =
      let long = last_lem w t checked_out branch good_ref IsReady IsCommit git h commits p a in
      let (l, r, k) = good_lem (last_hash h commits) s long ready e in
      bounded_lem w t checked_out branch good_ref IsReady IsCommit git head h subject commits
        (good_commit w t good_ref (last_hash h commits) s).0 _ (p, a) l r k

  with_log_lem :
      (head : String) (o : Option Answer) (s : S)
      → AreCommits IsCommit (log_commits o)
      → IsReady s
      → checked_out s ≡ branch
      → IsBack checked_out branch
          (with_log w t (record { head = head; branch = branch }) good_ref (o, s))
  unfolding with_log
  with_log_lem head none s a ready e = (tt, e)
  with_log_lem head (some answer) s a ready e =
      with_commits_lem head (commits_of answer.stdout) s a ready e

  with_branch_lem :
      (head : String) (o : Option String) (s : S)
      → o ≡ some branch
      → IsReady s
      → checked_out s ≡ branch
      → IsBack checked_out branch (with_branch w t good_ref head (o, s))
  unfolding with_branch
  with_branch_lem head o s names ready e =
      let (answer, s') = w.git ("log" ∷ "--format=%H %s" ∷ "HEAD" ∷ []) s in
      let (ready', keeps) = git.log_keeps s ready in
      rw names (with_log_lem head answer s' (git.logs_commits s ready) ready' (keeps ∙ e))

  with_head_lem :
      (o : Option String) (s : S)
      → IsReady s
      → checked_out s ≡ branch
      → IsBack checked_out branch (with_head w t good_ref (o, s))
  unfolding with_head git_current_branch
  with_head_lem none s ready e = (tt, e)
  with_head_lem (some head) s ready e =
      let (ready', keeps) = git.symbolic_ref_keeps s ready in
      with_branch_lem head _ _ (git.names_branch s ready e) ready' (keeps ∙ e)

  in_repo_lem :
      (o : Option Answer) (s : S)
      → IsReady s
      → checked_out s ≡ branch
      → IsBack checked_out branch (in_repo w t good_ref (o, s))
  unfolding in_repo git_rev_parse
  in_repo_lem o s ready e = elim (Bool-cases (did_well o)) [
    | inl well ↦
        let (ready', keeps) = git.rev_parse_keeps "HEAD" s ready in
        rw well (
          with_head_lem (git_rev_parse w t "HEAD" s).0 (git_rev_parse w t "HEAD" s).1 ready'
            (keeps ∙ e))
    | inr ill ↦ rw ill (tt, e)
  ]

  -- Of a repository without local changes, in which a branch is checked out, with a git that there does
  -- what is documented, a good commit, if one is named, of which git prints no shorter hash than eight
  -- characters, and runs of the CI that leave no local changes: however the bisection ends,
  -- with an error of git, without a range to search or with a verdict, the branch is checked out again;
  -- and it does end, neither in a panic nor for want of fuel.
  pub cmd_bisect_whole-IsBack :
      (s : S)
      → IsReady s
      → checked_out s ≡ branch
      → IsBack checked_out branch (cmd_bisect_whole w t good_ref s)
  unfolding cmd_bisect_whole
  cmd_bisect_whole-IsBack s ready e =
      let (a, s') = w.git ("rev-parse" ∷ "--git-dir" ∷ []) s in
      let (ready', keeps) = git.rev_parse_keeps "--git-dir" s ready in
      in_repo_lem a s' ready' (keeps ∙ e)
