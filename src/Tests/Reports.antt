-- ===== src/Tests/Reports.antt =====
-- A run over two fixtures, its report, and the messages of a span.
use halley.Common.{
  ◌≡◌, refl, String, true, false, Option, none, some, List, [], ◌∷◌, str_eq, if◌then◌else◌, map,
}
use halley.Common.BTreeMap.{get}
use halley.Common.BTreeMap.Laws.{IsSorted}
use halley.Json.{Value, object, field, end, array, cons, nil}
use halley.Json
use halley.Domain.OtlpSpan.{AnyValue, OtlpEvent}
use halley.Normalizer.Attrs.{json_str_attr}
use halley.Normalizer.Events.{messages_or}
use halley.Normalizer.Events.Order.{inputs, outputs, extract_bodies-eq}
use halley.Normalizer.OtelGenAi
use halley.Runner.Ci.{
  Replay, agent_failed, evaluated, result_json, cmd_ci, merged, failures, suites_of,
}
use halley.Runner.Ci.Verdict.{any_has_failed, cmd_ci-eq}
use halley.Runner.Ci.Suites.{suite, of_slug, suites_of-IsSorted}
use halley.Tests.{test_external}

abbrev pub passed_result : Value
passed_result =
    object (field "fixture_slug" (Json.string "checkout") (field "passed" (Json.bool true) end))

abbrev pub silent_result : Value
silent_result = object (field "fixture_slug" (Json.string "login") end)

abbrev pub test_parse : String → Option Value
test_parse s =
    if str_eq s "good"
    then some (array (cons passed_result nil))
    else if str_eq s "silent"
    then some (array (cons silent_result nil))
    else none

abbrev good_runs : List Replay
good_runs = evaluated "good" ∷ []

abbrev mixed_runs : List Replay
mixed_runs = evaluated "good" ∷ agent_failed "login" ∷ []

cmd_ci-eq_example :
    cmd_ci test_parse mixed_runs
    ≡ (map result_json mixed_runs, any_has_failed test_parse mixed_runs)
cmd_ci-eq_example = cmd_ci-eq test_parse mixed_runs

good_runs_pass : (cmd_ci test_parse good_runs).1 ≡ false
unfolding cmd_ci get
good_runs_pass = refl

-- A result that does not say whether it passed fails the run, and is no failure of the report.
silent_run_fails : cmd_ci test_parse (evaluated "silent" ∷ []) ≡ ("silent" ∷ [], true)
unfolding cmd_ci get
silent_run_fails = refl

silent_report_passes : failures (merged test_parse ("silent" ∷ [])) ≡ 0
unfolding failures merged get
silent_report_passes = refl

suites_of-IsSorted_example :
    IsSorted (suites_of (passed_result ∷ silent_result ∷ passed_result ∷ []))
    × (suite (suites_of (passed_result ∷ silent_result ∷ passed_result ∷ [])) "checkout"
        ≡ of_slug "checkout" (passed_result ∷ silent_result ∷ passed_result ∷ []))
suites_of-IsSorted_example =
    suites_of-IsSorted (passed_result ∷ silent_result ∷ passed_result ∷ []) "checkout"

abbrev user_event : OtlpEvent
user_event = record {
  name = "gen_ai.user.message";
  time_unix_nano = 1;
  attributes = ("content", AnyValue.string "hi") ∷ [];
}

extract_bodies-eq_example : OtelGenAi.extract_bodies test_external (user_event ∷ []) [] ≡ (
  messages_or
      (inputs test_external (user_event ∷ []))
      (json_str_attr test_external [] "gen_ai.input.messages"),
  messages_or
      (outputs test_external (user_event ∷ []))
      (json_str_attr test_external [] "gen_ai.output.messages"),
)
extract_bodies-eq_example = extract_bodies-eq test_external (user_event ∷ []) []
