-- ===== src/Runner/Bisect/First.antt =====
-- What the bisection answers.
use halley.Common.{
  ℕ, ◌+◌, ◌-◌, ◌≤◌, ◌<◌, String, ◌≡◌, ap, ◌∙◌, Bool, true, false, Option, some, List, ◌∷◌, length,
  take, str_eq, if◌then◌else◌, unwrap_or, arith,
}
use halley.Runner.Bisect.{
  Commit, position, oldest_first, last_hash, unconfirmed, first_failing, same_commits, candidate,
  concluded, ranged, cmd_bisect,
}
use halley.Runner.Bisect.Search.{range_of, search-first}

-- The candidates of a range: the commits up to the good one, the oldest first.
abbrev pub candidates : List Commit → ℕ → List Commit
candidates commits good_idx = oldest_first (take (good_idx + 1) commits)

-- With `fuel` tests for a range of at most 2 to the power of `fuel` commits; a good commit that is in
-- the log, by its hash, and is not the newest; and candidates of which those before the `k`-th pass
-- and the others fail, `k` not the good commit: the bisection answers that the `k`-th candidate is
-- the first failing commit, where a last test confirms that it fails, and else that it is not confirmed.
cmd_bisect-first :
    (fuel : ℕ) (passes confirm : Commit → Bool) (good_ref : Option String) (h s : String)
    (commits : List Commit) (good_idx k : ℕ)
    → str_eq (unwrap_or good_ref (last_hash h commits)) h ≡ false
    → position (unwrap_or good_ref (last_hash h commits)) ((h, s) ∷ commits) ≡ some good_idx
    → let cs = candidates ((h, s) ∷ commits) good_idx in
      length cs - 1 ≤ range_of fuel
      → 0 < k
      → k ≤ length cs - 1
      → ((i : ℕ) → i < k → passes (candidate cs i) ≡ true)
      → ((i : ℕ) → k ≤ i → i ≤ length cs - 1 → passes (candidate cs i) ≡ false)
      → cmd_bisect fuel passes confirm good_ref ((h, s) ∷ commits)
        ≡ (if confirm (candidate cs k) then unconfirmed else first_failing (candidate cs k))
unfolding cmd_bisect
cmd_bisect-first fuel passes confirm good_ref h s commits good_idx k ne at le above below good bad =
    let cs = candidates ((h, s) ∷ commits) good_idx in
    let hash = unwrap_or good_ref (last_hash h commits) in
    ap
      (λ b.
        if b
        then same_commits
        else ranged fuel passes confirm ((h, s) ∷ commits) (position hash ((h, s) ∷ commits)))
      ne
    ∙ ap (ranged fuel passes confirm ((h, s) ∷ commits)) at
    ∙ ap (concluded confirm cs)
        (search-first (λ i. passes (candidate cs i)) fuel 0 (length cs - 1) k (omega arith) above
          below (λ i zero_le lt. good i lt) bad).1
