-- ===== src/Runner/Ci/Suites.antt =====
-- The suites of the report.
use halley.Common.{
  ◌≡◌, refl, sym, ap, ◌∙◌, String, Option, some, List, [], ◌∷◌, ◌++◌, str_eq, if◌then◌else◌,
  unwrap_or, eq_iff, Bool-cases, inl, inr,
}
use mathlib.Core.List.{append-nil, append_assoc}
use halley.Common.BTreeMap.{BTreeMap, get}
use halley.Common.BTreeMap.Laws.{get-insert, IsSorted, insert-IsSorted}
use halley.Json.{Value}
use halley.Runner.Ci.{slug_of, push_case, suites_from, suites_of}

abbrev pub of_slug : String → List Value → List Value
of_slug slug [] = []
of_slug slug (r ∷ all) = if str_eq (slug_of r) slug then r ∷ of_slug slug all else of_slug slug all

abbrev pub suite : BTreeMap (List Value) → String → List Value
suite suites slug = unwrap_or (get suites slug) []

pushed_lem :
    (suites : BTreeMap (List Value)) (r : Value) (slug : String)
    → unwrap_or
        (if str_eq (slug_of r) slug
          then some (unwrap_or (get suites (slug_of r)) [] ++ r ∷ [])
          else get suites slug)
        []
      ≡ suite suites slug ++ of_slug slug (r ∷ [])
pushed_lem suites r slug = elim (Bool-cases (str_eq (slug_of r) slug)) [
  | inl same ↦ rw same (ap (λ k. suite suites k ++ r ∷ []) ((eq_iff (slug_of r) slug).0 same))
  | inr other ↦ rw other (sym (append-nil (suite suites slug)))
]

of_slug-cons :
    (slug : String) (r : Value) (all : List Value)
    → of_slug slug (r ∷ []) ++ of_slug slug all ≡ of_slug slug (r ∷ all)
of_slug-cons slug r all = elim (Bool-cases (str_eq (slug_of r) slug)) [
  | inl same ↦ rw same refl
  | inr other ↦ rw other refl
]

suite-push :
    (suites : BTreeMap (List Value)) (r : Value) (slug : String)
    → suite (push_case suites r) slug ≡ suite suites slug ++ of_slug slug (r ∷ [])
suite-push suites r slug =
    let pushed = unwrap_or (get suites (slug_of r)) [] ++ r ∷ [] in
    ap (λ (o : Option (List Value)). unwrap_or o []) (get-insert (slug_of r) slug pushed suites)
    ∙ pushed_lem suites r slug

suites_lem :
    (suites : BTreeMap (List Value)) (all : List Value) (slug : String)
    → suite (suites_from suites all) slug ≡ suite suites slug ++ of_slug slug all
unfolding suites_from
suites_lem suites [] slug = sym (append-nil (suite suites slug))
suites_lem suites (r ∷ all) slug =
    suites_lem (push_case suites r) all slug
    ∙ ap (λ l. l ++ of_slug slug all) (suite-push suites r slug)
    ∙ append_assoc (suite suites slug) (of_slug slug (r ∷ [])) (of_slug slug all)
    ∙ ap (λ l. suite suites slug ++ l) (of_slug-cons slug r all)

suites_from-IsSorted :
    (suites : BTreeMap (List Value)) (all : List Value)
    → IsSorted suites
    → IsSorted (suites_from suites all)
unfolding suites_from
suites_from-IsSorted suites [] s = s
suites_from-IsSorted suites (r ∷ all) s =
    suites_from-IsSorted (push_case suites r) all (insert-IsSorted _ _ suites s)

-- The report has one suite for each slug, in the order of the slugs, and the cases of a suite are
-- exactly the results of its slug, in their order.
pub suites_of-IsSorted :
    (all : List Value) (slug : String)
    → IsSorted (suites_of all) × (suite (suites_of all) slug ≡ of_slug slug all)
unfolding suites_of
suites_of-IsSorted all slug = (suites_from-IsSorted [] all tt, unfold get in suites_lem [] all slug)
