-- ===== src/Domain/Span/Sorted.antt =====
-- The sorted attributes of a span as a map.
use text.Mathlib.TextEquality.{path_by_compare}
use halley.Common.{String, ◌≡◌, refl, ◌∙◌, none, List, [], ◌∷◌, arith, eq_iff}
use halley.Common.BTreeMap.{get, insert}
use halley.Common.BTreeMap.Laws.{get-insert, IsSorted, insert-IsSorted}
use halley.Domain.Span.{insert_entry, sort_entries}

abbrev pub HasDistinctKeys : List (String × String) → Type 0
HasDistinctKeys [] = Unit
HasDistinctKeys ((k, v) ∷ l) = (get l k ≡ none) × HasDistinctKeys l

insert_entry-eq-insert :
    (k v : String) (l : List (String × String))
    → get l k ≡ none
    → insert_entry (k, v) l ≡ insert k v l
unfolding insert_entry insert get
insert_entry-eq-insert k v [] h = refl
insert_entry-eq-insert k v ((j, w) ∷ l) h =
    ground (arith, insert_entry-eq-insert k v l, path_by_compare k j, eq_iff j k)

sort_entries-cons :
    (k v : String) (l : List (String × String))
    → ((i : String) → get (sort_entries l) i ≡ get l i)
    → get l k ≡ none
    → sort_entries ((k, v) ∷ l) ≡ insert k v (sort_entries l)
unfolding sort_entries
sort_entries-cons k v l same h = insert_entry-eq-insert k v (sort_entries l) (same k ∙ h)

pub get-sort_entries :
    (l : List (String × String))
    → HasDistinctKeys l
    → (i : String) → get (sort_entries l) i ≡ get l i
unfolding get
get-sort_entries [] d i = unfold sort_entries in refl
get-sort_entries ((k, v) ∷ l) (h, d) i =
    rw (sort_entries-cons k v l (get-sort_entries l d) h)
      (ground (arith, get-insert k i v (sort_entries l), get-sort_entries l d i))

pub sort_entries-IsSorted :
    (l : List (String × String)) → HasDistinctKeys l → IsSorted (sort_entries l)
sort_entries-IsSorted [] d = unfold sort_entries in tt
sort_entries-IsSorted ((k, v) ∷ l) (h, d) =
    rw (sort_entries-cons k v l (get-sort_entries l d) h)
      (insert-IsSorted k v (sort_entries l) (sort_entries-IsSorted l d))
