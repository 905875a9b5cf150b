-- ===== src/Runner/Fixtures.antt =====
-- The fixtures of a directory: `find_fixtures` and the choice of `cmd_diff` in cli/src/main.rs.
pub mod Found
pub mod Latest
use Prim.Native.String.{◌++◌ as append}
use halley.Common.{
  String, Bool, true, false, Option, none, some, List, [], ◌∷◌, map, str_eq, ◌&&◌, starts_with,
  if◌then◌else◌,
}
use halley.Common.Sort.{sort, last}
use halley.Runner.Paths.{PathBuf, join_name, stem_and_extension}
use halley.Runner.Setup.{
  Machine, Ran, ok, bail, ◌>>=◌, Failure, unreadable_dir, no_baseline, ensure, context,
}

-- `path.extension().is_some_and(|e| e == "json")`
abbrev pub is_json : Option String → Bool
is_json none = false
is_json (some extension) = str_eq extension "json"

abbrev pub file_stem : String → String
file_stem name = (stem_and_extension name).0

abbrev pub has_json_extension : String → Bool
has_json_extension name = is_json (stem_and_extension name).1

abbrev is_only : Option String → String → Bool
is_only none name = true
is_only (some filter) name = str_eq (file_stem name) filter

module _ (m : Machine) where
  -- Whether an entry is one of the fixtures asked for.
  abbrev pub is_fixture : PathBuf → Option String → String → Bool
  is_fixture dir only name =
      (has_json_extension name && m.is_file (join_name dir name)) && is_only only name

  abbrev keep : PathBuf → Option String → String → List String → Ran (List String)
  keep dir only name files = ok (if is_fixture dir only name then name ∷ files else files)

  -- The loop over the entries of the directory, whose first error ends it.
  fixture_loop : PathBuf → Option String → List (Option String) → Ran (List String)
  fixture_loop dir only [] = ok []
  fixture_loop dir only (none ∷ entries) = bail (unreadable_dir dir)
  fixture_loop dir only (some name ∷ entries) = fixture_loop dir only entries >>= keep dir only name

  -- All the files are in one directory, so that they are sorted as their names are.
  abbrev sorted_in : PathBuf → List String → List PathBuf
  sorted_in dir files = map (join_name dir) (sort files)

  in_entries : PathBuf → Option String → Option (List (Option String)) → Ran (List PathBuf)
  unfolding fixture_loop sort
  in_entries dir only none = bail (unreadable_dir dir)
  in_entries dir only (some entries) =
      fixture_loop dir only entries >>= λ files. ok (sorted_in dir files)

  unfoldable pub find_fixtures : PathBuf → Option String → Ran (List PathBuf)
  unfolding in_entries
  find_fixtures dir only = if m.exists dir then in_entries dir only (m.read_dir dir) else ok []

-- The hybrid cassettes of a fixture among the entries; an entry that is an error is passed over.
abbrev pub is_hybrid : (fixture_slug name : String) → Bool
is_hybrid fixture_slug name =
    has_json_extension name && starts_with (file_stem name) (append fixture_slug "-hybrid-")

unfoldable pub hybrid_candidates : (fixture_slug : String) → List (Option String) → List String
hybrid_candidates fixture_slug [] = []
hybrid_candidates fixture_slug (none ∷ entries) = hybrid_candidates fixture_slug entries
hybrid_candidates fixture_slug (some name ∷ entries) =
    let rest = hybrid_candidates fixture_slug entries in
    if is_hybrid fixture_slug name then name ∷ rest else rest

abbrev pub baseline_in : PathBuf → (fixture_slug : String) → PathBuf
baseline_in dir fixture_slug = join_name dir (append fixture_slug ".json")

-- The two files that `cmd_diff` compares, where there is a hybrid cassette: the baseline, and the
-- last of the cassettes.
abbrev pub with_latest :
    PathBuf → (fixture_slug : String) → Option String → Option (PathBuf × PathBuf)
with_latest dir fixture_slug none = none
with_latest dir fixture_slug (some name) = some (baseline_in dir fixture_slug, join_name dir name)

unfoldable pub compared :
    Machine → PathBuf → (fixture_slug : String) → Ran (Option (PathBuf × PathBuf))
unfolding hybrid_candidates sort
compared m dir fixture_slug =
    ensure (m.exists (baseline_in dir fixture_slug)) (no_baseline (baseline_in dir fixture_slug)) (
      context (m.read_dir dir) (unreadable_dir dir) >>= λ entries.
      ok (with_latest dir fixture_slug (last (sort (hybrid_candidates fixture_slug entries)))))
