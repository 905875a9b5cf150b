-- ===== src/Tests/Runs.antt =====
-- Runs of the CLI on a machine with two fixtures, a hybrid cassette and a file of notes.
use Prim.Native.String.{◌++◌ as append}
use halley.Common.{
  ℕ, ◌+◌, ◌≡◌, refl, String, true, false, Option, none, some, List, [], ◌∷◌, map, length,
}
use halley.Common.BTreeMap.{get}
use halley.Common.Text.{codes}
use halley.Runner.Paths.{PathBuf, path_of, join_path, join_name, display, stem_and_extension}
use halley.Runner.Config.{HalleyConfig, default_replay}
use halley.Runner.Setup.{Machine, ResolvedPaths, ok}
use halley.Runner.Fixtures.{find_fixtures, compared, hybrid_candidates}
use halley.Runner.Fixtures.Found.{
  IsAnswer, listing, AreOnly, find_fixtures-IsAnswer, find_fixtures-AreOnly,
}
use halley.Runner.Fixtures.Latest.{IsLatest, compared-IsLatest}
use halley.Runner.Launch.{Launch, replay_launch}
use halley.Runner.Launch.Child.{IsReplay, replay_launch-IsReplay}
use halley.Runner.Ci.{Replay, result_json, failures, merged, cmd_ci}
use halley.Runner.Ci.Verdict.{any_has_failed}
use halley.Runner.Ci.Command.{
  Run, Round, all_passed, replays_of, round_replay, reported, cmd_ci_files,
}
use halley.Runner.Ci.Green.{cmd_ci_files-green}
use halley.Runner.Junit.{escaped_name, escaped_msg, write_junit_xml}
use halley.Runner.Junit.Escape.{
  normalized, read_value, read_value-escaped_name, read_value-escaped_msg,
}
use halley.Tests.Reports.{test_parse}

display_test : display (join_path (path_of "/a/./b/") (path_of "./c//d.json")) ≡ "/a/b/c/d.json"
unfolding display join_path path_of
display_test = refl

stem_test : stem_and_extension "a.b.json" ≡ ("a.b", some "json")
unfolding stem_and_extension
stem_test = refl

abbrev fixtures_dir : PathBuf
fixtures_dir = record { is_absolute = true; names = "fixtures" ∷ "repo" ∷ [] }

abbrev test_entries : List (Option String)
test_entries =
    some "login-hybrid-2.json"
    ∷ some "notes.txt"
    ∷ some "login.json"
    ∷ some "login-hybrid-1.json"
    ∷ some "checkout.json"
    ∷ []

abbrev pub test_machine : Machine
test_machine = record {
  canonicalize = λ p. some p;
  exists = λ p. true;
  is_dir = λ p. false;
  is_file = λ p. true;
  read_dir = λ p. some test_entries;
  create_dir_all = λ p. true;
  write = λ p t. true;
  var = λ key. none;
  temp_dir = record { is_absolute = true; names = "tmp" ∷ [] };
  process_id = 7;
}

abbrev pub test_cfg : HalleyConfig
test_cfg = record {
  agent = record { command = "python" ∷ "agent.py" ∷ []; cwd = none; fixture_slug = none };
  shim = record { provider = "openai"; replay_env_var = "HALLEY_MODE" };
  fixtures_dir = "fixtures";
  tools = record { name = "send_email"; irreversible = true } ∷ [];
  replay = default_replay;
}

abbrev pub test_paths : ResolvedPaths
test_paths = record {
  config_dir = record { is_absolute = true; names = "repo" ∷ [] };
  agent_cwd = record { is_absolute = true; names = "repo" ∷ [] };
  sdk_py_dir = record { is_absolute = true; names = "sdk-py" ∷ [] };
  fixtures_dir = fixtures_dir;
  site_dir = record { is_absolute = true; names = "halley-shim-7" ∷ "tmp" ∷ [] };
  pypath = "/tmp/halley-shim-7:/sdk-py";
}

find_fixtures-IsAnswer_example :
    IsAnswer test_machine fixtures_dir none
      (listing test_machine fixtures_dir)
      (find_fixtures test_machine fixtures_dir none)
find_fixtures-IsAnswer_example = find_fixtures-IsAnswer test_machine fixtures_dir none

find_fixtures-AreOnly_example :
    AreOnly
      (join_name fixtures_dir (append "login" ".json"))
      (find_fixtures test_machine fixtures_dir (some "login"))
find_fixtures-AreOnly_example = find_fixtures-AreOnly test_machine fixtures_dir "login"

only_test :
    find_fixtures test_machine fixtures_dir (some "login")
    ≡ ok (join_name fixtures_dir "login.json" ∷ [])
unfolding find_fixtures stem_and_extension
only_test = refl

compared-IsLatest_example :
    IsLatest fixtures_dir "login"
      (hybrid_candidates "login" test_entries)
      (compared test_machine fixtures_dir "login")
compared-IsLatest_example =
    compared-IsLatest test_machine fixtures_dir "login" test_entries refl refl

latest_test :
    compared test_machine fixtures_dir "login"
    ≡ ok (some (join_name fixtures_dir "login.json", join_name fixtures_dir "login-hybrid-2.json"))
unfolding compared stem_and_extension
latest_test = refl

replay_launch-IsReplay_example :
    (l : Launch) × (replay_launch test_machine test_cfg test_paths "pure" false
        (join_name fixtures_dir "login.json")
      ≡ ok l)
    × (l.current_dir ≡ test_paths.agent_cwd)
    × IsReplay test_machine test_cfg "pure" false (join_name fixtures_dir "login.json") l
replay_launch-IsReplay_example =
    replay_launch-IsReplay test_machine test_cfg test_paths "pure" false
      (join_name fixtures_dir "login.json") "python" ("agent.py" ∷ []) refl
      (refl, (refl, (refl, (refl, (refl, (refl, (refl, (refl, tt))))))))

-- Every agent ends well, and the evaluator answers with a result that passed.
abbrev good_rounds : ℕ → Launch → Round
good_rounds n l = record {
  agent = some (some 0);
  is_served = true;
  evaluator = some (record { status = some 0; stdout = "good"; stderr = "" });
}

abbrev test_run : Run
test_run = record {
  machine = test_machine;
  cfg = test_cfg;
  paths = test_paths;
  mode = "pure";
  allow_irreversible = false;
}

abbrev report : PathBuf
report = record { is_absolute = false; names = "halley-results.xml" ∷ [] }

run_passes :
    cmd_ci_files test_parse test_run good_rounds report
      (join_name fixtures_dir "checkout.json" ∷ join_name fixtures_dir "login.json" ∷ [])
    ≡ ok all_passed
unfolding cmd_ci_files replays_of round_replay replay_launch reported cmd_ci get
run_passes = refl

cmd_ci_files-green_example :
    (replays : List Replay) × (replays_of test_run good_rounds 0
        (join_name fixtures_dir "checkout.json" ∷ join_name fixtures_dir "login.json" ∷ [])
      ≡ ok replays)
    × (length replays ≡ length (join_name fixtures_dir "login.json" ∷ []) + 1)
    × (any_has_failed test_parse replays ≡ false)
    × (test_run.machine.write report (write_junit_xml test_parse (map result_json replays)) ≡ true)
    × (failures (merged test_parse (map result_json replays)) ≡ 0)
cmd_ci_files-green_example =
    cmd_ci_files-green test_parse test_run good_rounds report
      (join_name fixtures_dir "checkout.json") (join_name fixtures_dir "login.json" ∷ []) run_passes

escaped_test : escaped_msg "a < \"b\" & c" ≡ "a &lt; &quot;b&quot; &amp; c"
unfolding escaped_msg
escaped_test = refl

read_value-escaped_msg_example :
    read_value (codes (append (escaped_msg "1 < 2\n& \"x\"") (append "\"" ">\n")))
    ≡ some (codes "1 < 2 & \"x\"")
unfolding normalized
read_value-escaped_msg_example = read_value-escaped_msg "1 < 2\n& \"x\"" ">\n"

-- A name with a `<` in it makes a report that no reader takes.
read_value-escaped_name_example :
    read_value (codes (append (escaped_name "cost<0.1") (append "\"" ">\n"))) ≡ none
read_value-escaped_name_example = read_value-escaped_name "cost<0.1" ">\n"
