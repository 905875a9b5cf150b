-- ===== src/Runner/Fixtures/Latest.antt =====
-- Which cassette `cmd_diff` compares with the baseline.
use mathlib.Core.List.{Mem}
use halley.Common.{◌≡◌, refl, ap, String, true, Option, none, some, List, [], ◌∷◌, All}
use halley.Common.Sort.{sort, last, last-sort, ◌≤text◌}
use halley.Runner.Paths.{PathBuf, join_name}
use halley.Runner.Setup.{Machine, ok, Ran}
use halley.Runner.Fixtures.{hybrid_candidates, with_latest, compared, baseline_in}

-- The right answer for a directory with these entries: nothing to compare where it has no hybrid
-- cassette of the fixture, and else the baseline and the last of the cassettes.
abbrev pub IsLatest : PathBuf → String → List String → Ran (Option (PathBuf × PathBuf)) → Type 0
IsLatest dir fixture_slug [] r = r ≡ ok none
IsLatest dir fixture_slug (c ∷ candidates) r =
    (name : String) × (r ≡ ok (some (baseline_in dir fixture_slug, join_name dir name)))
    × Mem name (c ∷ candidates)
    × All (λ other. other ≤text name) (c ∷ candidates)

latest_lem :
    (dir : PathBuf) (fixture_slug : String) (candidates : List String)
    → IsLatest dir fixture_slug candidates
        (ok (with_latest dir fixture_slug (last (sort candidates))))
latest_lem dir fixture_slug [] = unfold sort in refl
latest_lem dir fixture_slug (c ∷ candidates) =
    let (name, e, mem, all) = last-sort c candidates in
    (name, ap (λ o. ok (with_latest dir fixture_slug o)) e, mem, all)

-- With the baseline there and a directory that is read, the baseline is compared with the hybrid
-- cassette of the fixture whose name is the greatest, and there is nothing to compare where the
-- directory has no such cassette.
pub compared-IsLatest :
    (m : Machine) (dir : PathBuf) (fixture_slug : String) (entries : List (Option String))
    → m.exists (baseline_in dir fixture_slug) ≡ true
    → m.read_dir dir ≡ some entries
    → IsLatest dir fixture_slug
        (hybrid_candidates fixture_slug entries)
        (compared m dir fixture_slug)
unfolding compared
compared-IsLatest m dir fixture_slug entries there read =
    rw there (rw read (latest_lem dir fixture_slug (hybrid_candidates fixture_slug entries)))
