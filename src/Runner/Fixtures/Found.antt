-- ===== src/Runner/Fixtures/Found.antt =====
-- Which fixtures a run finds.
use Prim.Native.String.{◌++◌ as append}
use mathlib.Core.List.{Perm}
use mathlib.Core.List.Perm
use halley.Common.{
  ◌≡◌, refl, ap, sym, ◌∙◌, String, Bool, true, false, Option, none, some, List, [], ◌∷◌, ◌++◌, map,
  and_then, if◌then◌else◌, Bool-cases, inl, inr, arith, str_eq, eq_iff, All,
}
use halley.Common.Sort.{sort, IsOrdered, sort-IsOrdered, Perm-sort, All-sort}
use mathlib.Core.Path.{ap₂}
use halley.Common.Text.{codes, codes-append, rsplit_once}
use halley.Common.Text.Cuts.{codes_inj, codes-rsplit_once}
use halley.Runner.Paths.{PathBuf, join_name, stem_and_extension, cut_name}
use halley.Runner.Setup.{Machine, Ran, ok, bail, ◌>>=◌, unreadable_dir}
use halley.Runner.Fixtures.{is_json, is_fixture, fixture_loop, find_fixtures, keep, in_entries}

-- The names of the entries, where none of them is an error.
abbrev with_name : String → Option (List String) → Option (List String)
with_name name none = none
with_name name (some names) = some (name ∷ names)

abbrev pub names_of : List (Option String) → Option (List String)
names_of [] = some []
names_of (none ∷ entries) = none
names_of (some name ∷ entries) = with_name name (names_of entries)

-- The names in a directory, none of which are there where the directory is missing.
abbrev pub listing : Machine → PathBuf → Option (List String)
listing m dir = if m.exists dir then and_then (m.read_dir dir) names_of else some []

abbrev pub fixtures_of : Machine → PathBuf → Option String → List String → List String
fixtures_of m dir only [] = []
fixtures_of m dir only (name ∷ names) =
    let rest = fixtures_of m dir only names in
    if is_fixture m dir only name then name ∷ rest else rest

-- The right answer for a directory: its fixtures in the order of their names, or the error.
abbrev pub IsAnswer :
    Machine → PathBuf → Option String → Option (List String) → Ran (List PathBuf) → Type 0
IsAnswer m dir only none r = r ≡ bail (unreadable_dir dir)
IsAnswer m dir only (some names) r =
    (files : List String) × (r ≡ ok (map (join_name dir) files))
    × Perm files (fixtures_of m dir only names)
    × IsOrdered files

abbrev answer : Machine → PathBuf → Option String → Option (List String) → Ran (List String)
answer m dir only none = bail (unreadable_dir dir)
answer m dir only (some names) = ok (fixtures_of m dir only names)

keep_lem :
    (m : Machine) (dir : PathBuf) (only : Option String) (name : String) (o : Option (List String))
    → (answer m dir only o >>= keep m dir only name) ≡ answer m dir only (with_name name o)
keep_lem m dir only name none = refl
keep_lem m dir only name (some names) = refl

loop_lem :
    (m : Machine) (dir : PathBuf) (only : Option String) (entries : List (Option String))
    → fixture_loop m dir only entries ≡ answer m dir only (names_of entries)
unfolding fixture_loop
loop_lem m dir only [] = refl
loop_lem m dir only (none ∷ entries) = refl
loop_lem m dir only (some name ∷ entries) =
    ap (λ r. r >>= keep m dir only name) (loop_lem m dir only entries)
    ∙ keep_lem m dir only name (names_of entries)

sorted-IsAnswer :
    (m : Machine) (dir : PathBuf) (only : Option String) (o : Option (List String))
    → IsAnswer m dir only o (answer m dir only o >>= λ files. ok (map (join_name dir) (sort files)))
sorted-IsAnswer m dir only none = refl
sorted-IsAnswer m dir only (some names) = (
  sort (fixtures_of m dir only names),
  refl,
  Perm-sort (fixtures_of m dir only names),
  sort-IsOrdered (fixtures_of m dir only names),
)

entries-IsAnswer :
    (m : Machine) (dir : PathBuf) (only : Option String) (o : Option (List (Option String)))
    → IsAnswer m dir only (and_then o names_of) (in_entries m dir only o)
unfolding in_entries
entries-IsAnswer m dir only none = refl
entries-IsAnswer m dir only (some entries) =
    rw (loop_lem m dir only entries) (sorted-IsAnswer m dir only (names_of entries))

-- Whether the directory is missing, cannot be read, has an entry that cannot be read, or is read: the
-- answer is no fixtures, an error, an error, and its fixtures each once in the order of their names.
pub find_fixtures-IsAnswer :
    (m : Machine) (dir : PathBuf) (only : Option String)
    → IsAnswer m dir only (listing m dir) (find_fixtures m dir only)
unfolding find_fixtures
find_fixtures-IsAnswer m dir only = elim (Bool-cases (m.exists dir)) [
  | inl there ↦ rw there (entries-IsAnswer m dir only (m.read_dir dir))
  | inr missing ↦ rw missing ([], refl, Perm.refl [], tt)
]

json_name :
    (name stem extension slug : String)
    → rsplit_once b'.' name ≡ some (stem, extension)
    → str_eq extension "json" ≡ true
    → str_eq stem slug ≡ true
    → name ≡ append slug ".json"
json_name name stem extension slug cut json same = codes_inj name (append slug ".json") (
    codes-rsplit_once b'.' name stem extension cut
    ∙ ap₂ (λ x y. codes x ++ b'.' ∷ codes y) ((eq_iff stem slug).0 same)
        ((eq_iff extension "json").0 json)
    ∙ sym (codes-append slug ".json"))

cut_lem :
    (name slug : String) (o : Option (String × String))
    → rsplit_once b'.' name ≡ o
    → is_json (cut_name name o).1 ≡ true
    → str_eq (cut_name name o).0 slug ≡ true
    → name ≡ append slug ".json"
cut_lem name slug none cut json same = cc
cut_lem name slug (some (stem, extension)) cut json same = elim (Bool-cases (str_eq stem "")) [
  | inl empty ↦ ground (arith, empty, json)
  | inr proper ↦
      json_name name stem extension slug cut (ground (arith, proper, json))
        (ground (arith, proper, same))
]

is_fixture-name :
    (m : Machine) (dir : PathBuf) (slug name : String)
    → is_fixture m dir (some slug) name ≡ true
    → name ≡ append slug ".json"
unfolding stem_and_extension
is_fixture-name m dir slug name h =
    cut_lem name slug (rsplit_once b'.' name) refl (ground (arith, h)) (ground (arith, h))

-- The paths of an answer, where there is one, are all this path.
abbrev pub AreOnly : PathBuf → Ran (List PathBuf) → Type 0
AreOnly p (ok ps) = All (λ q. q ≡ p) ps
AreOnly p _ = Unit

if_fixture :
    (b : Bool) (slug name : String) (names : List String)
    → (b ≡ true → name ≡ append slug ".json")
    → All (λ n. n ≡ append slug ".json") names
    → All (λ n. n ≡ append slug ".json") (if b then name ∷ names else names)
if_fixture true slug name names h a = (h refl, a)
if_fixture false slug name names h a = a

fixtures_only :
    (m : Machine) (dir : PathBuf) (slug : String) (names : List String)
    → All (λ name. name ≡ append slug ".json") (fixtures_of m dir (some slug) names)
fixtures_only m dir slug [] = tt
fixtures_only m dir slug (name ∷ names) =
    if_fixture (is_fixture m dir (some slug) name) slug name _ (is_fixture-name m dir slug name)
      (fixtures_only m dir slug names)

All-join_name :
    (dir : PathBuf) (slug : String) (names : List String)
    → All (λ name. name ≡ append slug ".json") names
    → All (λ p. p ≡ join_name dir (append slug ".json")) (map (join_name dir) names)
All-join_name dir slug [] a = tt
All-join_name dir slug (name ∷ names) (e, a) =
    (ap (join_name dir) e, All-join_name dir slug names a)

answer_only :
    (m : Machine) (dir : PathBuf) (slug : String) (o : Option (List String))
    → AreOnly
        (join_name dir (append slug ".json"))
        (answer m dir (some slug) o >>= λ files. ok (map (join_name dir) (sort files)))
answer_only m dir slug none = tt
answer_only m dir slug (some names) =
    All-join_name dir slug (sort (fixtures_of m dir (some slug) names))
      (All-sort _ (fixtures_of m dir (some slug) names) (fixtures_only m dir slug names))

entries_only :
    (m : Machine) (dir : PathBuf) (slug : String) (o : Option (List (Option String)))
    → AreOnly (join_name dir (append slug ".json")) (in_entries m dir (some slug) o)
unfolding in_entries
entries_only m dir slug none = tt
entries_only m dir slug (some entries) =
    rw (loop_lem m dir (some slug) entries) (answer_only m dir slug (names_of entries))

-- A run that is asked for one slug finds no other file than the `.json` of that slug, whatever is in
-- the directory.
pub find_fixtures-AreOnly :
    (m : Machine) (dir : PathBuf) (slug : String)
    → AreOnly (join_name dir (append slug ".json")) (find_fixtures m dir (some slug))
unfolding find_fixtures
find_fixtures-AreOnly m dir slug = elim (Bool-cases (m.exists dir)) [
  | inl there ↦ rw there (entries_only m dir slug (m.read_dir dir))
  | inr missing ↦ rw missing tt
]
