-- ===== src/Runner/Bisect/Whole/Done.antt =====
-- The search of `cmd_bisect` in a repository comes to its end.
use halley.Common.{
  ℕ, String, Option, zero, suc, ◌+◌, ◌-◌, ◌/◌, ◌≤◌, ◌<◌, ◌≡◌, refl, Bool, true, false, List, [],
  ◌∷◌, All, All-append, ltb, length, length-append, take, if◌then◌else◌, arith,
}
use halley.Runner.Bisect.{Commit, candidate, oldest_first}
use halley.Runner.Bisect.Whole.Git.{IsGit, test_commit-IsReady}
use halley.Runner.Bisect.Repo.{
  World, Target, Searched, between, exhausted, stopped, shortens, search_repo, test_commit,
}

module _ (P : Commit → Type 0) where
  pub All-candidate : (cs : List Commit) (i : ℕ) → All P cs → i < length cs → P (candidate cs i)
  All-candidate [] i a lt = absurd (omega (arith, lt))
  All-candidate (c ∷ cs) zero (p, a) lt = p
  All-candidate (c ∷ cs) (suc i) (p, a) lt = All-candidate cs i a (omega (arith, lt))

  pub All-take : (n : ℕ) (cs : List Commit) → All P cs → All P (take n cs)
  All-take zero cs a = tt
  All-take (suc n) [] a = tt
  All-take (suc n) (c ∷ cs) (p, a) = (p, All-take n cs a)

  pub All-oldest_first : (cs : List Commit) → All P cs → All P (oldest_first cs)
  unfolding oldest_first
  All-oldest_first [] a = tt
  All-oldest_first (c ∷ cs) (p, a) =
      All-append P (oldest_first cs) (c ∷ []) (All-oldest_first cs a) (p, tt)

pub length-oldest_first : (c : Commit) (cs : List Commit) → 0 < length (oldest_first (c ∷ cs))
unfolding oldest_first
length-oldest_first c cs = omega (arith, length-append (oldest_first cs) (c ∷ []))

module _ {S : Type 0} (w : World S) (t : Target) (checked_out : S → String) (branch : String)
    (good_ref : Option String) (IsReady : S → Type 0) (IsCommit : String → Type 0)
    (git : IsGit w t checked_out branch good_ref IsReady IsCommit) (cs : List Commit) where
  -- The search comes to its end, at a candidate.
  abbrev pub IsDone : Searched S → Type 0
  IsDone (between lo hi s) = (hi < length cs) × IsReady s
  IsDone (exhausted s) = ⊥
  IsDone (stopped s) = ⊥

  branch_lem :
      (more short passes : Bool) (upper lower : Searched S) (lo hi : ℕ) (s : S)
      → (more ≡ true → short ≡ true)
      → (more ≡ true → IsDone upper)
      → (more ≡ true → IsDone lower)
      → hi < length cs
      → IsReady s
      → IsDone (
          if more
          then (if short then (if passes then upper else lower) else stopped s)
          else between lo hi s)
  branch_lem true true true upper lower lo hi s h u l lt ready = u refl
  branch_lem true true false upper lower lo hi s h u l lt ready = l refl
  branch_lem true false passes upper lower lo hi s h u l lt ready = cc (h refl)
  branch_lem false short passes upper lower lo hi s h u l lt ready = (lt, ready)

  end_lem :
      (more : Bool) (lo hi : ℕ) (s : S)
      → more ≡ false
      → hi < length cs
      → IsReady s
      → IsDone (if more then exhausted s else between lo hi s)
  end_lem true lo hi s e lt ready = cc
  end_lem false lo hi s e lt ready = (lt, ready)

  -- With one test for each commit of the range, and candidates that are commits, the search ends at a
  -- candidate.
  pub search_repo-IsDone :
      (fuel lo hi : ℕ) (s : S)
      → All (λ c. IsCommit c.0) cs
      → lo ≤ hi
      → hi < length cs
      → hi - lo ≤ fuel + 1
      → IsReady s
      → IsDone (search_repo w t fuel cs lo hi s)
  unfolding search_repo
  search_repo-IsDone zero lo hi s a le lt enough ready =
      end_lem (ltb (lo + 1) hi) lo hi s (ground (arith, enough)) lt ready
  search_repo-IsDone (suc fuel) lo hi s a le lt enough ready =
      let mid = (lo + hi) / 2 in
      let s' = (test_commit w t 3 (candidate cs mid).0 s).1 in
      let commit = All-candidate (λ c. IsCommit c.0) cs mid a (ground (arith, le, lt)) in
      let ready' =
        test_commit-IsReady w t checked_out branch good_ref IsReady IsCommit git 3
          (candidate cs mid).0 s commit ready in
      branch_lem (ltb (lo + 1) hi) (shortens (candidate cs mid).0)
        (test_commit w t 3 (candidate cs mid).0 s).0 (search_repo w t fuel cs mid hi s')
        (search_repo w t fuel cs lo mid s') lo hi s
        (λ more. git.long_hash (candidate cs mid).0 commit)
        (λ more.
          search_repo-IsDone fuel mid hi s' a (ground (arith, more)) lt (ground (arith, more))
            ready')
        (λ more.
          search_repo-IsDone fuel lo mid s' a (ground (arith, more)) (ground (arith, more))
            (ground (arith, more)) ready')
        lt ready
