-- ===== src/Runner/Ci/Green.antt =====
-- What a run that passes has seen.
use halley.Common.{
  ℕ, ◌+◌, ◌≡◌, sym, ap, ◌∙◌, String, Bool, true, false, Option, List, [], ◌∷◌, map, arith, length,
}
use halley.Json.{Value}
use halley.Runner.Paths.{PathBuf}
use halley.Runner.Setup.{Machine, ok, ok-bind}
use halley.Runner.Launch.{Launch, replay_launch, fixture_slug}
use halley.Runner.Ci.{Replay, cmd_ci, result_json, failures, merged}
use halley.Runner.Ci.Verdict.{any_has_failed, cmd_ci-eq, cmd_ci-green}
use halley.Runner.Junit.{write_junit_xml}
use halley.Runner.Ci.Command.{
  Run, Round, all_passed, round_replay, replays_of, reported, cmd_ci_files,
}

length-replays_of :
    (run : Run) (rounds : ℕ → Launch → Round) (round : ℕ) (files : List PathBuf)
    (replays : List Replay)
    → replays_of run rounds round files ≡ ok replays
    → length replays ≡ length files
unfolding replays_of
length-replays_of run rounds round [] replays e = ground (arith, e)
length-replays_of run rounds round (f ∷ files) replays e =
    let (launch, e1, h1) =
      ok-bind (replay_launch run.machine run.cfg run.paths run.mode run.allow_irreversible f) _
        replays e in
    let (replay, e2, h2) =
      ok-bind (round_replay (fixture_slug f) (rounds round launch)) _ replays h1 in
    let (rest, e3, h3) = ok-bind (replays_of run rounds (round + 1) files) _ replays h2 in
    ground (arith, e3, h3, length-replays_of run rounds (round + 1) files rest e3)

module _ (from_str : String → Option Value) where
  ok-reported :
      (m : Machine) (junit_path : PathBuf) (replays : List Replay)
      → reported from_str m junit_path replays ≡ ok all_passed
      → ((cmd_ci from_str replays).1 ≡ false)
        × (m.write junit_path (write_junit_xml from_str (cmd_ci from_str replays).0) ≡ true)
  unfolding reported
  ok-reported m junit_path replays e = (ground (arith, e), ground (arith, e))

  -- A run over at least one fixture that ends with "all passed": every fixture was replayed, none of them
  -- failed, by its agent, its replay, its evaluator or a result that does not say it passed; and the
  -- report was written, with no failure in it.
  pub cmd_ci_files-green :
      (run : Run) (rounds : ℕ → Launch → Round) (junit_path f : PathBuf) (files : List PathBuf)
      → cmd_ci_files from_str run rounds junit_path (f ∷ files) ≡ ok all_passed
      → (replays : List Replay) × (replays_of run rounds 0 (f ∷ files) ≡ ok replays)
        × (length replays ≡ length files + 1)
        × (any_has_failed from_str replays ≡ false)
        × (run.machine.write junit_path (write_junit_xml from_str (map result_json replays)) ≡ true)
        × (failures (merged from_str (map result_json replays)) ≡ 0)
  unfolding cmd_ci_files
  cmd_ci_files-green run rounds junit_path f files e =
      let (replays, made, h) =
        ok-bind (replays_of run rounds 0 (f ∷ files)) (reported from_str run.machine junit_path)
          all_passed e in
      let (passed, written) = ok-reported run.machine junit_path replays h in
      let eq = cmd_ci-eq from_str replays in
      let texts = ap (λ (p : List String × Bool). p.0) eq in
      (
        replays,
        made,
        ground (arith, length-replays_of run rounds 0 (f ∷ files) replays made),
        sym (ap (λ (p : List String × Bool). p.1) eq) ∙ passed,
        sym (ap (λ t. run.machine.write junit_path (write_junit_xml from_str t)) texts) ∙ written,
        sym (ap (λ t. failures (merged from_str t)) texts) ∙ cmd_ci-green from_str replays passed,
      )
