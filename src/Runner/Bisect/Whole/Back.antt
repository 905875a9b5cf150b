-- ===== src/Runner/Bisect/Whole/Back.antt =====
-- The way back to the branch from the search of `cmd_bisect`.
use mathlib.Core.Path.{subst}
use halley.Common.{
  ℕ, suc, ◌+◌, ◌-◌, ◌<◌, ◌≡◌, refl, String, Bool, true, false, Option, none, some, List, [], ◌∷◌,
  All, length, take, str_eq, if◌then◌else◌, arith, Bool-cases, inl, inr, ◌||◌,
}
use halley.Runner.Bisect.{Commit, candidate, oldest_first, too_slow, last_hash}
use halley.Runner.Bisect.Repo.{
  World, Target, Searched, between, exhausted, stopped, shortens, search_repo, test_commit,
  restore_repo,
}
use halley.Runner.Bisect.Whole.{
  Ended, git_failed, panicked, ended, confirmed, after_search, searched, ranged, bounded, verdict,
}
use halley.Runner.Bisect.Whole.Git.{IsGit, IsLong, test_commit-IsReady}
use halley.Runner.Bisect.Whole.Done.{
  All-candidate, All-take, All-oldest_first, length-oldest_first, IsDone, search_repo-IsDone,
}

-- The command ends with an error of git or a verdict, and not in a panic or for want of fuel.
abbrev pub IsVerdict : Ended → Type 0
IsVerdict git_failed = Unit
IsVerdict panicked = ⊥
IsVerdict (ended too_slow) = ⊥
IsVerdict (ended b) = Unit

-- A verdict, with the branch checked out.
abbrev pub IsBack : {S : Type 0} → (S → String) → String → Ended × S → Type 0
IsBack checked_out branch (e, s) = IsVerdict e × (checked_out s ≡ branch)

add_one : (i : ℕ) → suc i ≡ i + 1
add_one i = omega arith

taken_lem :
    (c : Commit) (commits : List Commit) (i : ℕ)
    → 0 < length (oldest_first (take (i + 1) (c ∷ commits)))
taken_lem c commits i =
    subst (λ n. 0 < length (oldest_first (take n (c ∷ commits)))) (add_one i)
      (length-oldest_first c (take i commits))

abbrev pub AreCommits : (String → Type 0) → List Commit → Type 0
AreCommits IsCommit = All (λ c. IsCommit c.0)

module _ {S : Type 0} (w : World S) (t : Target) (checked_out : S → String) (branch : String)
    (good_ref : Option String) (IsReady : S → Type 0) (IsCommit : String → Type 0)
    (git : IsGit w t checked_out branch good_ref IsReady IsCommit) where
  pub last_lem :
      (h : String) (commits : List Commit)
      → IsCommit h
      → AreCommits IsCommit commits
      → shortens (last_hash h commits) ≡ true
  last_lem h [] p a = git.long_hash h p
  last_lem h ((h', s) ∷ commits) p (q, a) = last_lem h' commits q a

  pub restore_lem :
      (head : String) (s : S)
      → IsReady s
      → ((restore_repo w t head branch s).0 ≡ true)
        × (checked_out (restore_repo w t head branch s).1 ≡ branch)
  unfolding restore_repo
  restore_lem head s ready =
      rw (git.is_branch, (git.to_branch s ready).0) (refl, (git.to_branch s ready).1)

  verdict_lem : (c : Commit) (passes : Bool) → IsVerdict (verdict w t c passes)
  verdict_lem c true = tt
  verdict_lem c false = tt

  returns_lem :
      (c : Commit) (passes returns : Bool)
      → returns ≡ true
      → IsVerdict (if returns then verdict w t c passes else panicked)
  returns_lem c passes true e = verdict_lem c passes
  returns_lem c passes false e = cc

  confirmed_lem :
      (head : String) (c : Commit) (s : S)
      → IsCommit c.0
      → IsReady s
      → IsBack checked_out branch (confirmed w t (record { head = head; branch = branch }) c s)
  unfolding confirmed
  confirmed_lem head c s commit ready =
      let (passes, s') = test_commit w t 3 c.0 s in
      let (returns, back) = restore_lem head s' (
        test_commit-IsReady w t checked_out branch good_ref IsReady IsCommit git 3 c.0 s commit
          ready) in
      (returns_lem c passes (restore_repo w t head branch s').0 returns, back)

  after_lem :
      (head : String) (cs : List Commit) (r : Searched S)
      → AreCommits IsCommit cs
      → IsDone w t checked_out branch good_ref IsReady IsCommit git cs r
      → IsBack checked_out branch (after_search w t (record { head = head; branch = branch }) cs r)
  unfolding after_search
  after_lem head cs (exhausted s) a d = absurd d
  after_lem head cs (stopped s) a d = absurd d
  after_lem head cs (between lo hi s) a (lt, ready) =
      let commit = All-candidate (λ c. IsCommit c.0) cs hi a lt in
      rw (git.long_hash (candidate cs hi).0 commit)
        (confirmed_lem head (candidate cs hi) s commit ready)

  started_lem :
      (b long : Bool) (x : Ended × S) (s : S)
      → long ≡ true
      → IsBack checked_out branch x
      → IsBack checked_out branch (if b || long then x else (panicked, s))
  started_lem true long x s e h = h
  started_lem false true x s e h = h
  started_lem false false x s e h = cc

  searched_lem :
      (head : String) (cs : List Commit) (s : S)
      → AreCommits IsCommit cs
      → 0 < length cs
      → IsReady s
      → IsBack checked_out branch (searched w t (record { head = head; branch = branch }) cs s)
  unfolding searched
  searched_lem head cs s a lt ready =
      let (passes, s') = test_commit w t 1 (candidate cs 0).0 s in
      let commit = All-candidate (λ c. IsCommit c.0) cs 0 a lt in
      let r = search_repo w t (length cs) cs 0 (length cs - 1) s' in
      started_lem (test_commit w t 1 (candidate cs 0).0 s).0 (shortens (candidate cs 0).0)
        (after_search w t (record { head = head; branch = branch }) cs r) s'
        (git.long_hash (candidate cs 0).0 commit)
        (after_lem head cs r a (
          search_repo-IsDone w t checked_out branch good_ref IsReady IsCommit git cs (length cs) 0
            (length cs - 1) s' a (omega arith) (omega (arith, lt)) (omega arith)
            (test_commit-IsReady w t checked_out branch good_ref IsReady IsCommit git 1
              (candidate cs 0).0 s commit ready)))

  ranged_lem :
      (head : String) (c : Commit) (commits : List Commit) (o : Option ℕ) (s : S)
      → AreCommits IsCommit (c ∷ commits)
      → IsReady s
      → checked_out s ≡ branch
      → IsBack checked_out branch
          (ranged w t (record { head = head; branch = branch }) (c ∷ commits) o s)
  unfolding ranged
  ranged_lem head c commits none s a ready e = (tt, e)
  ranged_lem head c commits (some i) s a ready e =
      searched_lem head (oldest_first (take (i + 1) (c ∷ commits))) s
        (All-oldest_first (λ c'. IsCommit c'.0) (take (i + 1) (c ∷ commits))
          (All-take (λ c'. IsCommit c'.0) (i + 1) (c ∷ commits) a))
        (taken_lem c commits i) ready

  pub bounded_lem :
      (head h subject : String) (commits : List Commit) (o : Option String) (s : S)
      → AreCommits IsCommit ((h, subject) ∷ commits)
      → IsLong o
      → IsReady s
      → checked_out s ≡ branch
      → IsBack checked_out branch
          (bounded w t (record { head = head; branch = branch }) h ((h, subject) ∷ commits) (o, s))
  unfolding bounded
  bounded_lem head h subject commits none s a l ready e = (tt, e)
  bounded_lem head h subject commits (some good) s (p, a) l ready e =
      rw (l, git.long_hash h p)
        (elim (Bool-cases (str_eq good h)) [
          | inl same ↦ rw same (tt, e)
          | inr other ↦ rw other (ranged_lem head (h, subject) commits _ s (p, a) ready e)
        ])
