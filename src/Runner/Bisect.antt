-- ===== src/Runner/Bisect.antt =====
-- `cmd_bisect` of cli/src/main.rs: the search for the first commit at which a fixture fails.
pub mod Reliable
pub mod Log
pub mod Repo
pub mod Whole
pub mod Search
pub mod First
use halley.Common.{
  ℕ, zero, suc, ◌+◌, ◌-◌, ◌/◌, String, Bool, true, false, Option, none, some, List, [], ◌∷◌, ◌++◌,
  ◌||◌, ltb, ◌==◌, str_eq, starts_with, length, get_elem?, take, if◌then◌else◌, unwrap_or,
}

-- The loop of `test_commit_reliable_n`, over the outcomes of the runs to come.
reliable_loop : (n pass_count fail_count : ℕ) → List Bool → Bool
reliable_loop n pass_count fail_count [] = ltb fail_count n
reliable_loop n pass_count fail_count (passed ∷ runs) =
    let passes = if passed then pass_count + 1 else pass_count in
    let fails = if passed then fail_count else fail_count + 1 in
    let rest = reliable_loop n passes fails runs in
    if fails == n then false else if passes == n then true else rest

-- `runs` are the outcomes of the runs that the loop could make, `n` in number.
unfoldable pub test_commit_reliable_n : List Bool → Bool
unfolding reliable_loop
test_commit_reliable_n runs = reliable_loop (length runs) 0 0 runs

-- The loop between a last good and a first bad index; `none` where the fuel is used up.
unfoldable pub search : ℕ → (passes : ℕ → Bool) → (lo hi : ℕ) → Option (ℕ × ℕ)
search zero passes lo hi = if ltb (lo + 1) hi then none else some (lo, hi)
search (suc fuel) passes lo hi =
    let mid = (lo + hi) / 2 in
    let upper = search fuel passes mid hi in
    let lower = search fuel passes lo mid in
    if ltb (lo + 1) hi then (if passes mid then upper else lower) else some (lo, hi)

abbrev pub Commit : Type 0
Commit = String × String

-- `h.starts_with(hash) || hash.starts_with(h)`
abbrev names_commit : String → Commit → Bool
names_commit hash (h, subject) = starts_with h hash || starts_with hash h

unfoldable pub position : String → List Commit → Option ℕ
position hash [] = none
position hash (c ∷ commits) = elim (names_commit hash c) [
  | true ↦ some 0
  | false ↦ elim (position hash commits) [ none ↦ none | some i ↦ some (i + 1) ]
]

-- `commits[..=good_idx]` in chronological order.
unfoldable pub oldest_first : List Commit → List Commit
oldest_first [] = []
oldest_first (c ∷ commits) = oldest_first commits ++ c ∷ []

abbrev pub last_hash : String → List Commit → String
last_hash h [] = h
last_hash h ((h', s) ∷ commits) = last_hash h' commits

pub data Bisected : Type 0 where
  no_commits same_commits not_found too_slow unconfirmed : Bisected
  first_failing : Commit → Bisected

abbrev pub candidate : List Commit → ℕ → Commit
candidate candidates i = unwrap_or (get_elem? candidates i) ("", "")

-- The last test of the candidate at `hi`.
abbrev concluded : (confirm : Commit → Bool) → List Commit → Option (ℕ × ℕ) → Bisected
concluded confirm candidates none = too_slow
concluded confirm candidates (some (lo, hi)) =
    if confirm (candidate candidates hi)
    then unconfirmed
    else first_failing (candidate candidates hi)

abbrev found : (fuel : ℕ) (passes confirm : Commit → Bool) → List Commit → Bisected
found fuel passes confirm candidates =
    concluded confirm candidates
      (search fuel (λ i. passes (candidate candidates i)) 0 (length candidates - 1))

abbrev ranged : ℕ → (passes confirm : Commit → Bool) → List Commit → Option ℕ → Bisected
ranged fuel passes confirm commits none = not_found
ranged fuel passes confirm commits (some good_idx) =
    found fuel passes confirm (oldest_first (take (good_idx + 1) commits))

-- `good_ref` is the hash that git gives for the good commit, if one is named; the commits are those of
-- the log, the newest first. `passes` is what the tests of a commit say in the search, and `confirm`
-- what those of the last commit say after it.
unfoldable pub cmd_bisect :
    (fuel : ℕ) (passes confirm : Commit → Bool) (good_ref : Option String) → List Commit → Bisected
unfolding search position oldest_first
cmd_bisect fuel passes confirm good_ref [] = no_commits
cmd_bisect fuel passes confirm good_ref ((h, s) ∷ commits) =
    let good_hash = unwrap_or good_ref (last_hash h commits) in
    if str_eq good_hash h
    then same_commits
    else ranged fuel passes confirm ((h, s) ∷ commits) (position good_hash ((h, s) ∷ commits))
