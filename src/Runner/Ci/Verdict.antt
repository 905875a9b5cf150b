-- ===== src/Runner/Ci/Verdict.antt =====
-- When `cmd_ci` fails.
use halley.Common.{
  ◌≡◌, ◌+◌, none, some, unwrap_or, and_then, refl, sym, String, Bool, true, false, not, Option,
  List, [], ◌∷◌, ◌++◌, ◌||◌, map, arith, ◌∙◌, ap,
}
use mathlib.Core.List.{append-nil, append_assoc}
use halley.Json.{Value}
use halley.Runner.Ci.{
  Replay, agent_failed, not_served, evaluator_failed, evaluated, ci_passed, check_results,
  results_of, failed_after, ci_loop, cmd_ci, result_json, failures, merged, field_of, as_bool,
}

abbrev pub any_failed_result : List Value → Bool
any_failed_result [] = false
any_failed_result (r ∷ results) = not (ci_passed r) || any_failed_result results

module _ (from_str : String → Option Value) where
  -- A fixture failed: its agent, its replay or its evaluator did, or one of its results did not pass.
  abbrev pub has_failed : Replay → Bool
  has_failed (evaluated eval_json) = any_failed_result (results_of from_str eval_json)
  has_failed _ = true

  abbrev pub any_has_failed : List Replay → Bool
  any_has_failed [] = false
  any_has_failed (r ∷ replays) = has_failed r || any_has_failed replays

  check_lem :
      (results : List Value) (b : Bool) → check_results results b ≡ (b || any_failed_result results)
  unfolding check_results
  check_lem [] b = ground arith
  check_lem (r ∷ results) b = ground (arith, check_lem results b, check_lem results true)

  failed_lem : (r : Replay) (b : Bool) → failed_after from_str r b ≡ (b || has_failed r)
  unfolding failed_after
  failed_lem (agent_failed slug) b = ground arith
  failed_lem (not_served slug) b = ground arith
  failed_lem (evaluator_failed slug e) b = ground arith
  failed_lem (evaluated j) b = check_lem (results_of from_str j) b

  or-false : (b : Bool) → b ≡ (b || false)
  or-false b = ground arith

  or_lem :
      (r : Replay) (replays : List Replay) (b : Bool)
      → (failed_after from_str r b || any_has_failed replays) ≡ (b || any_has_failed (r ∷ replays))
  or_lem r replays b = ground (arith, failed_lem r b)

  loop_lem :
      (replays : List Replay) (all : List String) (b : Bool)
      → ci_loop from_str replays (all, b)
        ≡ (all ++ map result_json replays, b || any_has_failed replays)
  unfolding ci_loop
  loop_lem [] all b = λ j. (sym (append-nil all) j, or-false b j)
  loop_lem (r ∷ replays) all b =
      loop_lem replays (all ++ result_json r ∷ []) (failed_after from_str r b) ∙ (λ j.
        (append_assoc all (result_json r ∷ []) (map result_json replays) j, or_lem r replays b j))

  -- The run fails exactly when some fixture failed, and the report is made from one text for each
  -- fixture, in their order.
  pub cmd_ci-eq :
      (replays : List Replay)
      → cmd_ci from_str replays ≡ (map result_json replays, any_has_failed replays)
  unfolding cmd_ci
  cmd_ci-eq replays = loop_lem replays [] false

  failures-append : (xs ys : List Value) → failures (xs ++ ys) ≡ failures xs + failures ys
  unfolding failures
  failures-append [] ys = omega arith
  failures-append (r ∷ xs) ys = omega (arith, failures-append xs ys)

  says_passed : (o : Option Bool) → unwrap_or o false ≡ true → unwrap_or o true ≡ true
  says_passed none e = refl
  says_passed (some b) e = e

  results_green : (results : List Value) → any_failed_result results ≡ false → failures results ≡ 0
  unfolding failures
  results_green [] e = refl
  results_green (r ∷ results) e =
      ground (arith, e, says_passed (and_then (field_of r "passed") as_bool), results_green results)

  replays_green :
      (replays : List Replay)
      → any_has_failed replays ≡ false
      → failures (merged from_str (map result_json replays)) ≡ 0
  unfolding merged result_json
  replays_green [] e = unfold failures in refl
  replays_green (evaluated j ∷ replays) e = omega (
    arith,
    failures-append (results_of from_str j) (merged from_str (map result_json replays)),
    results_green (results_of from_str j) (ground (arith, e)),
    replays_green replays (ground (arith, e)),
  )
  replays_green (agent_failed slug ∷ replays) e = cc
  replays_green (not_served slug ∷ replays) e = cc
  replays_green (evaluator_failed slug m ∷ replays) e = cc

  -- A run that does not fail has a report without failures.
  pub cmd_ci-green :
      (replays : List Replay)
      → (cmd_ci from_str replays).1 ≡ false
      → failures (merged from_str (cmd_ci from_str replays).0) ≡ 0
  cmd_ci-green replays e =
      let eq = cmd_ci-eq replays in
      ap (λ (p : List String × Bool). failures (merged from_str p.0)) eq
      ∙ replays_green replays (sym (ap (λ (p : List String × Bool). p.1) eq) ∙ e)
