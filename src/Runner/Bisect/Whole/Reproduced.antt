-- ===== src/Runner/Bisect/Whole/Reproduced.antt =====
-- The search of `cmd_bisect` in a repository whose runs depend on the commit only.
use halley.Common.{
  ℕ, Option, zero, suc, ◌+◌, ◌≡◌, sym, ap, ◌∙◌, String, Bool, true, false, [], ◌∷◌, arith,
  Bool-cases, inl, inr,
}
use halley.Runner.Bisect.Whole.Git.{IsGit, checkout-IsReady, run-IsReady}
use halley.Runner.Bisect.Repo.{
  World, Target, test_commit, did_well, ran_well, ci_launch, run_ci_at_commit, runs_loop, checkout,
}

-- In the states `IsReady`, a commit is checked out when git is asked for it, and a run of the CI passes
-- exactly where the commit checked out passes, and leaves it checked out.
pub record IsReproducible {S : Type 0} (w : World S) (t : Target) (checked_out : S → String)
    (passes : String → Bool) (IsReady : S → Type 0) (IsCommit : String → Type 0) : Type 0 where
  pub checks_out :
      (c : String) (s : S)
      → IsCommit c
      → IsReady s
      → (did_well (w.git ("checkout" ∷ c ∷ "--" ∷ []) s).0 ≡ true)
        × (checked_out (w.git ("checkout" ∷ c ∷ "--" ∷ []) s).1 ≡ c)
  pub runs :
      (s : S)
      → IsReady s
      → (ran_well (w.launch (ci_launch t) s).0 ≡ passes (checked_out s))
        × (checked_out (w.launch (ci_launch t) s).1 ≡ checked_out s)

module _ {S : Type 0} (w : World S) (t : Target) (checked_out : S → String) (branch : String)
    (good_ref : Option String) (IsReady : S → Type 0) (IsCommit : String → Type 0)
    (git : IsGit w t checked_out branch good_ref IsReady IsCommit) (passes : String → Bool)
    (rep : IsReproducible w t checked_out passes IsReady IsCommit) where
  checkout_lem : (c : String) (s : S) → IsCommit c → IsReady s → checked_out (checkout w t c s) ≡ c
  unfolding checkout
  checkout_lem c s commit ready =
      let (well, there) = rep.checks_out c s commit ready in rw well there

  run_lem :
      (s : S)
      → IsReady s
      → ((run_ci_at_commit w t s).0 ≡ passes (checked_out s))
        × (checked_out (run_ci_at_commit w t s).1 ≡ checked_out s)
  unfolding run_ci_at_commit
  run_lem s ready = rep.runs s ready

  abbrev ran : (s : S) → IsReady s → IsReady (run_ci_at_commit w t s).1
  ran s ready = run-IsReady w t checked_out branch good_ref IsReady IsCommit git s ready

  pass_lem :
      (n more p : ℕ) (s : S)
      → IsReady s
      → passes (checked_out s) ≡ true
      → p + (more + 1) ≡ n
      → (runs_loop w t n (suc more) p 0 s).0 ≡ true
  unfolding runs_loop
  pass_lem n zero p s ready good e = ground (arith, good, (run_lem s ready).0)
  pass_lem n (suc more) p s ready good e = ground (
    arith,
    good,
    (run_lem s ready).0,
    pass_lem n more (p + 1) (run_ci_at_commit w t s).1 (ran s ready)
        (ap passes (run_lem s ready).1 ∙ good) (omega (arith, e)),
  )

  fail_lem :
      (n more f : ℕ) (s : S)
      → IsReady s
      → passes (checked_out s) ≡ false
      → f + (more + 1) ≡ n
      → (runs_loop w t n (suc more) 0 f s).0 ≡ false
  unfolding runs_loop
  fail_lem n zero f s ready bad e = ground (arith, bad, (run_lem s ready).0)
  fail_lem n (suc more) f s ready bad e = ground (
    arith,
    bad,
    (run_lem s ready).0,
    fail_lem n more (f + 1) (run_ci_at_commit w t s).1 (ran s ready)
        (ap passes (run_lem s ready).1 ∙ bad) (omega (arith, e)),
  )

  -- Tested at least once, a commit passes exactly where it passes.
  pub test_commit_lem :
      (more : ℕ) (c : String) (s : S)
      → IsCommit c
      → IsReady s
      → (test_commit w t (suc more) c s).0 ≡ passes c
  unfolding test_commit
  test_commit_lem more c s commit ready =
      let there = ap passes (checkout_lem c s commit ready) in
      let ready' =
        checkout-IsReady w t checked_out branch good_ref IsReady IsCommit git c s commit ready in
      elim (Bool-cases (passes c)) [
        | inl good ↦
            pass_lem (suc more) more 0 (checkout w t c s) ready' (there ∙ good) (omega arith)
            ∙ sym good
        | inr bad ↦
            fail_lem (suc more) more 0 (checkout w t c s) ready' (there ∙ bad) (omega arith)
            ∙ sym bad
      ]
