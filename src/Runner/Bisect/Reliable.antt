-- ===== src/Runner/Bisect/Reliable.antt =====
-- When a commit counts as passing.
use halley.Common.{ℕ, ◌+◌, ◌≡◌, Bool, true, false, List, [], ◌∷◌, ◌||◌, ltb, length, arith}
use halley.Runner.Bisect.{reliable_loop, test_commit_reliable_n}

abbrev pub any_passes : List Bool → Bool
any_passes [] = false
any_passes (r ∷ runs) = r || any_passes runs

loop_lem :
    (n p f : ℕ) (runs : List Bool)
    → p + f + length runs ≡ n
    → reliable_loop n p f runs ≡ (ltb 0 p || any_passes runs)
unfolding reliable_loop
loop_lem n p f [] e = ground arith
loop_lem n p f (true ∷ runs) e = ground (arith, loop_lem n (p + 1) f runs)
loop_lem n p f (false ∷ []) e = ground arith
loop_lem n p f (false ∷ r ∷ runs) e = ground (arith, loop_lem n p (f + 1) (r ∷ runs))

-- A commit counts as passing exactly when at least one of its runs passes, however many runs are
-- made.
pub test_commit_reliable_n_lem : (runs : List Bool) → test_commit_reliable_n runs ≡ any_passes runs
unfolding test_commit_reliable_n
test_commit_reliable_n_lem runs = loop_lem (length runs) 0 0 runs (omega arith)
