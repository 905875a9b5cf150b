-- ===== src/Tests/Bisections.antt =====
-- A search over four commits, of which the third is the first that fails.
use halley.Common.{ℕ, zero, suc, ◌≡◌, Bool, true, false, some, [], ◌∷◌, arith}
use halley.Runner.Bisect.{search, test_commit_reliable_n}
use halley.Runner.Bisect.Reliable.{any_passes, test_commit_reliable_n_lem}
use halley.Runner.Bisect.Search.{IsBoundary, search-IsBoundary}

abbrev good_before_two : ℕ → Bool
good_before_two zero = true
good_before_two (suc zero) = true
good_before_two (suc (suc i)) = false

test_commit_reliable_n_lem_example :
    test_commit_reliable_n (false ∷ false ∷ true ∷ []) ≡ any_passes (false ∷ false ∷ true ∷ [])
test_commit_reliable_n_lem_example = test_commit_reliable_n_lem (false ∷ false ∷ true ∷ [])

search-IsBoundary_example :
    (a : ℕ) × (b : ℕ) × (search 2 good_before_two 0 3 ≡ some (a, b))
    × IsBoundary good_before_two 0 3 a b
search-IsBoundary_example = search-IsBoundary good_before_two 2 0 3 (omega arith) (omega arith)
