-- ===== src/Runner/Bisect/Whole/Answers.antt =====
-- The verdict of `cmd_bisect` on a repository whose runs depend on the commit only.
use halley.Common.{
  ℕ, zero, suc, ◌+◌, ◌-◌, ◌/◌, ◌≤◌, ◌<◌, ◌≡◌, refl, String, Bool, true, false, Option, none, some,
  List, ltb, length, if◌then◌else◌, arith,
}
use halley.Runner.Bisect.{Commit, candidate, search, first_failing}
use halley.Runner.Bisect.Search.{range_of, search-first}
use halley.Runner.Bisect.Repo.{
  World, Target, Searched, between, exhausted, stopped, shortens, search_repo, test_commit,
}
use halley.Runner.Bisect.Whole.{ended, searched, after_search, confirmed}
use halley.Runner.Bisect.Whole.Done.{All-candidate}
use halley.Runner.Bisect.Whole.Back.{AreCommits, restore_lem}
use halley.Runner.Bisect.Whole.Git.{IsGit, test_commit-IsReady}
use halley.Runner.Bisect.Whole.Reproduced.{IsReproducible, test_commit_lem}

within_range : (n : ℕ) → n < range_of n
within_range zero = omega arith
within_range (suc n) = omega (arith, within_range n)

module _ {S : Type 0} (w : World S) (t : Target) (checked_out : S → String) (branch : String)
    (good_ref : Option String) (IsReady : S → Type 0) (IsCommit : String → Type 0)
    (git : IsGit w t checked_out branch good_ref IsReady IsCommit) (passes : String → Bool)
    (rep : IsReproducible w t checked_out passes IsReady IsCommit) (cs : List Commit)
    (commits : AreCommits IsCommit cs) where
  abbrev passes_at : ℕ → Bool
  passes_at i = passes (candidate cs i).0

  candidate-IsCommit : (i : ℕ) → i < length cs → IsCommit (candidate cs i).0
  candidate-IsCommit i lt = All-candidate (λ c. IsCommit c.0) cs i commits lt

  tested :
      (more i : ℕ) (s : S)
      → i < length cs
      → IsReady s
      → ((test_commit w t (suc more) (candidate cs i).0 s).0 ≡ passes_at i)
        × IsReady (test_commit w t (suc more) (candidate cs i).0 s).1
  tested more i s lt ready = (
    test_commit_lem w t checked_out branch good_ref IsReady IsCommit git passes rep more
        (candidate cs i).0 s (candidate-IsCommit i lt) ready,
    test_commit-IsReady w t checked_out branch good_ref IsReady IsCommit git (suc more)
        (candidate cs i).0 s (candidate-IsCommit i lt) ready,
  )

  -- The search ended between the two.
  abbrev EndsAt : Searched S → ℕ → ℕ → Type 0
  EndsAt r a b = (s : S) × (r ≡ between a b s) × IsReady s

  stop_lem :
      (more : Bool) (lo hi a b : ℕ) (s : S)
      → if◌then◌else◌ {A = Option (ℕ × ℕ)} more none (some (lo, hi)) ≡ some (a, b)
      → IsReady s
      → EndsAt (if more then exhausted s else between lo hi s) a b
  stop_lem true lo hi a b s e ready = cc
  stop_lem false lo hi a b s e ready = (s, cc, ready)

  step_lem :
      (more short passed p : Bool) (upper lower : Searched S) (u l : Option (ℕ × ℕ))
      → (lo hi a b : ℕ) (s : S) → short ≡ true
      → passed ≡ p
      → (u ≡ some (a, b) → EndsAt upper a b)
      → (l ≡ some (a, b) → EndsAt lower a b)
      → if◌then◌else◌ {A = Option (ℕ × ℕ)} more (if p then u else l) (some (lo, hi)) ≡ some (a, b)
      → IsReady s
      → EndsAt
          (if more
            then (if short then (if passed then upper else lower) else stopped s)
            else between lo hi s)
          a
          b
  step_lem false short passed p upper lower u l lo hi a b s h q hu hl e ready = (s, cc, ready)
  step_lem true short passed true upper lower u l lo hi a b s h q hu hl e ready = rw (h, q) (hu e)
  step_lem true short passed false upper lower u l lo hi a b s h q hu hl e ready = rw (h, q) (hl e)

  -- The search of the repository ends where the search over the numbers of the candidates does.
  search_repo_lem :
      (fuel lo hi : ℕ) (s : S) (a b : ℕ)
      → lo ≤ hi
      → hi < length cs
      → search fuel passes_at lo hi ≡ some (a, b)
      → IsReady s
      → EndsAt (search_repo w t fuel cs lo hi s) a b
  unfolding search_repo search
  search_repo_lem zero lo hi s a b le lt e ready = stop_lem (ltb (lo + 1) hi) lo hi a b s e ready
  search_repo_lem (suc fuel) lo hi s a b le lt e ready =
      let mid = (lo + hi) / 2 in
      let in_range : mid < length cs = ground (arith, le, lt) in
      let s' = (test_commit w t 3 (candidate cs mid).0 s).1 in
      let (passed, ready') = tested 2 mid s in_range ready in
      step_lem (ltb (lo + 1) hi) (shortens (candidate cs mid).0)
        (test_commit w t 3 (candidate cs mid).0 s).0 (passes_at mid)
        (search_repo w t fuel cs mid hi s') (search_repo w t fuel cs lo mid s')
        (search fuel passes_at mid hi) (search fuel passes_at lo mid) lo hi a b s
        (git.long_hash (candidate cs mid).0 (candidate-IsCommit mid in_range)) passed
        (λ upper. search_repo_lem fuel mid hi s' a b (ground (arith, le)) lt upper ready')
        (λ lower. search_repo_lem fuel lo mid s' a b (ground (arith, le)) in_range lower ready') e
        ready

  -- The candidate at which the search ends fails: it is the verdict.
  confirmed_lem :
      (head : String) (k : ℕ) (s : S)
      → k < length cs
      → passes_at k ≡ false
      → IsReady s
      → (confirmed w t (record { head = head; branch = branch }) (candidate cs k) s).0
        ≡ ended (first_failing (candidate cs k))
  unfolding confirmed
  confirmed_lem head k s lt bad ready =
      let s' = (test_commit w t 3 (candidate cs k).0 s).1 in
      let (failed, ready') = tested 2 k s lt ready in
      rw
        (
          (restore_lem w t checked_out branch good_ref IsReady IsCommit git head s' ready').0,
          failed,
          bad,
        )
        refl

  after_lem :
      (head : String) (r : Searched S) (a k : ℕ)
      → EndsAt r a k
      → k < length cs
      → passes_at k ≡ false
      → (after_search w t (record { head = head; branch = branch }) cs r).0
        ≡ ended (first_failing (candidate cs k))
  unfolding after_search
  after_lem head r a k (s, e, ready) lt bad =
      rw (e, git.long_hash (candidate cs k).0 (candidate-IsCommit k lt))
        (confirmed_lem head k s lt bad ready)

  pub searched_lem :
      (head : String) (k : ℕ) (s : S)
      → 0 < k
      → k < length cs
      → ((i : ℕ) → i < k → passes_at i ≡ true)
      → ((i : ℕ) → k ≤ i → i < length cs → passes_at i ≡ false)
      → IsReady s
      → (searched w t (record { head = head; branch = branch }) cs s).0
        ≡ ended (first_failing (candidate cs k))
  unfolding searched
  searched_lem head k s above below good bad ready =
      let s' = (test_commit w t 1 (candidate cs 0).0 s).1 in
      let (passed, ready') = tested 0 0 s (omega (arith, below)) ready in
      let (a, e) =
        search-first passes_at (length cs) 0 (length cs - 1) k
          (omega (arith, within_range (length cs))) above (omega (arith, below))
          (λ i zero_le lt. good i lt) (λ i le lt. bad i le (omega (arith, lt, below))) in
      rw (passed, good 0 above)
        (after_lem head (search_repo w t (length cs) cs 0 (length cs - 1) s') a k
          (search_repo_lem (length cs) 0 (length cs - 1) s' a k (omega arith) (omega (arith, below))
            e ready')
          below (bad k (omega arith) below))
