-- ===== src/Runner/Ci.antt =====
-- The verdict of `cmd_ci`, and the suites of the report that `write_junit_xml` writes: cli/src/main.rs.
pub mod Verdict
pub mod Suites
pub mod Command
pub mod Green
use Prim.Native.String.{◌++◌ as append}
use halley.Common.{
  ℕ, ◌+◌, String, Bool, true, false, not, Option, none, some, List, [], ◌∷◌, ◌++◌, ◌||◌, length,
  if◌then◌else◌, unwrap_or, and_then,
}
use halley.Common.BTreeMap.{BTreeMap, get, insert}
use halley.Json.{Value, Items, Fields, array, object, fields, items}
use halley.Json

-- `Value::get` of a key, `as_str`, `as_bool`, `as_array`.
abbrev pub field_of : Value → String → Option Value
field_of (object fs) key = get (fields fs) key
field_of _ key = none

abbrev pub as_text : Value → Option String
as_text (Json.string s) = some s
as_text _ = none

abbrev as_bool : Value → Option Bool
as_bool (Json.bool b) = some b
as_bool _ = none

abbrev as_array : Value → Option (List Value)
as_array (array vs) = some (items vs)
as_array _ = none

-- What became of one fixture; the text of an evaluator's error has its quotes replaced and is trimmed.
pub data Replay : Type 0 where
  agent_failed : (slug : String) → Replay
  not_served : (slug : String) → Replay
  evaluator_failed : (slug error_text : String) → Replay
  evaluated : (eval_json : String) → Replay

-- The JSON array of one failed result.
abbrev failure_json : (slug invariant_name message : String) → String
failure_json slug invariant_name message = append "[{\"fixture_slug\":\"" (
    append slug (
      append "\",\"invariant_name\":\"" (
        append invariant_name
          (append "\",\"passed\":false,\"message\":\"" (append message "\",\"time_s\":0}]")))))

-- One round of the loop over the fixtures: the text of the results.
unfoldable pub result_json : Replay → String
result_json (agent_failed slug) = failure_json slug "replay" "agent exited non-zero"
result_json (not_served slug) = failure_json slug "replay" "no served.json — shim did not activate"
result_json (evaluator_failed slug e) =
    failure_json slug "evaluation" (append "evaluator error: " e)
result_json (evaluated eval_json) = eval_json

-- A result counts as passed where it says so; one that does not say counts as failed.
abbrev pub ci_passed : Value → Bool
ci_passed r = unwrap_or (and_then (field_of r "passed") as_bool) false

check_results : List Value → Bool → Bool
check_results [] any_failed = any_failed
check_results (r ∷ results) any_failed =
    check_results results (if ci_passed r then any_failed else true)

module _ (from_str : String → Option Value) where
  abbrev pub results_of : String → List Value
  results_of eval_json = unwrap_or (and_then (from_str eval_json) as_array) []

  failed_after : Replay → Bool → Bool
  unfolding check_results
  failed_after (agent_failed slug) any_failed = true
  failed_after (not_served slug) any_failed = true
  failed_after (evaluator_failed slug e) any_failed = true
  failed_after (evaluated eval_json) any_failed = check_results (results_of eval_json) any_failed

  -- The loop over the fixtures: the texts of the results, and whether any failed.
  ci_loop : List Replay → List String × Bool → List String × Bool
  unfolding failed_after result_json
  ci_loop [] acc = acc
  ci_loop (r ∷ replays) (all_results, any_failed) =
      ci_loop replays (all_results ++ result_json r ∷ [], failed_after r any_failed)

  unfoldable pub cmd_ci : List Replay → List String × Bool
  unfolding ci_loop
  cmd_ci replays = ci_loop replays ([], false)

  -- The results of all texts that are arrays.
  unfoldable pub merged : List String → List Value
  merged [] = []
  merged (json_str ∷ result_jsons) = results_of json_str ++ merged result_jsons

abbrev pub slug_of : Value → String
slug_of r = unwrap_or (and_then (field_of r "fixture_slug") as_text) "unknown"

-- In the report, a result that does not say counts as passed.
abbrev pub junit_passed : Value → Bool
junit_passed r = unwrap_or (and_then (field_of r "passed") as_bool) true

unfoldable pub failures : List Value → ℕ
failures [] = 0
failures (r ∷ cases) = (if junit_passed r then 0 else 1) + failures cases

-- `suites.entry(slug).or_default().push(r)`
abbrev push_case : BTreeMap (List Value) → Value → BTreeMap (List Value)
push_case suites r = insert (slug_of r) (unwrap_or (get suites (slug_of r)) [] ++ r ∷ []) suites

suites_from : BTreeMap (List Value) → List Value → BTreeMap (List Value)
unfolding insert get
suites_from suites [] = suites
suites_from suites (r ∷ all) = suites_from (push_case suites r) all

unfoldable pub suites_of : List Value → BTreeMap (List Value)
unfolding suites_from
suites_of all = suites_from [] all
