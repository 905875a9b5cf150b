-- ===== src/Runner/Ci/Command.antt =====
-- The whole of `cmd_ci` of cli/src/main.rs: the fixtures, a launch of the agent and of the evaluator for
-- each, the report and the exit code.
use halley.Common.{ℕ, ◌+◌, String, Bool, Option, List, [], ◌∷◌, if◌then◌else◌}
use halley.Common.Text.{replace, trim}
use halley.Json.{Value}
use halley.Runner.Paths.{PathBuf}
use halley.Runner.Config.{HalleyConfig}
use halley.Runner.Setup.{
  Machine, ResolvedPaths, resolve_paths, Ran, ok, ◌>>=◌, context, ensure, no_launch, no_evaluator,
  no_report,
}
use halley.Runner.Fixtures.{find_fixtures}
use halley.Runner.Launch.{Launch, replay_launch, is_success, fixture_slug}
use halley.Runner.Ci.{Replay, agent_failed, not_served, evaluator_failed, evaluated, cmd_ci}
use halley.Runner.Junit.{write_junit_xml}

-- A finished process: its exit code, its output and its errors.
pub record Output : Type 0 where
  pub status : Option ℕ
  pub stdout : String
  pub stderr : String

-- What the machine answers in one round: how the agent ended, whether the served entries are there, and
-- the evaluator's output; none where a process cannot be launched.
pub record Round : Type 0 where
  pub agent : Option (Option ℕ)
  pub is_served : Bool
  pub evaluator : Option Output

abbrev evaluation : (slug : String) → Output → Replay
evaluation slug out =
    if is_success out.status
    then evaluated out.stdout
    else evaluator_failed slug (trim (replace b'"' "'" out.stderr))

abbrev served_replay : (slug : String) → Round → Ran Replay
served_replay slug r =
    if r.is_served
    then (context r.evaluator no_evaluator >>= λ out. ok (evaluation slug out))
    else ok (not_served slug)

unfoldable pub round_replay : (slug : String) → Round → Ran Replay
round_replay slug r = do
  status ← context r.agent no_launch
  if is_success status then served_replay slug r else ok (agent_failed slug)

-- What a run is about: the machine, the configuration and the options.
pub record Run : Type 0 where
  pub machine : Machine
  pub cfg : HalleyConfig
  pub paths : ResolvedPaths
  pub mode : String
  pub allow_irreversible : Bool

-- The loop over the fixtures; `rounds` is what the machine answers to the launch of each round.
unfoldable pub replays_of :
    Run → (rounds : ℕ → Launch → Round) → (round : ℕ) → List PathBuf → Ran (List Replay)
unfolding round_replay replay_launch
replays_of run rounds round [] = ok []
replays_of run rounds round (fixture_path ∷ fixture_files) = do
  launch ← replay_launch run.machine run.cfg run.paths run.mode run.allow_irreversible fixture_path
  replay ← round_replay (fixture_slug fixture_path) (rounds round launch)
  replays ← replays_of run rounds (round + 1) fixture_files
  ok (replay ∷ replays)

pub data Verdict : Type 0 where
  no_fixtures all_passed some_failed : Verdict

module _ (from_str : String → Option Value) where
  -- The report and the exit code.
  unfoldable pub reported : Machine → (junit_path : PathBuf) → List Replay → Ran Verdict
  unfolding cmd_ci write_junit_xml
  reported m junit_path replays =
      let (all_results, any_failed) = cmd_ci from_str replays in
      ensure (m.write junit_path (write_junit_xml from_str all_results)) no_report
        (ok (if any_failed then some_failed else all_passed))

  unfoldable pub cmd_ci_files :
      Run → (rounds : ℕ → Launch → Round) → (junit_path : PathBuf) → List PathBuf → Ran Verdict
  unfolding replays_of reported
  cmd_ci_files run rounds junit_path [] = ok no_fixtures
  cmd_ci_files run rounds junit_path (f ∷ fixture_files) =
      replays_of run rounds 0 (f ∷ fixture_files) >>= reported run.machine junit_path

  unfoldable pub cmd_ci_whole :
      Machine
      → (rounds : ℕ → Launch → Round) → (config_path : PathBuf) → HalleyConfig
      → (only : Option String) → (junit_path : PathBuf) → (mode : String)
      → (allow_irreversible : Bool) → Ran Verdict
  unfolding cmd_ci_files resolve_paths find_fixtures
  cmd_ci_whole m rounds config_path cfg only junit_path mode allow_irreversible = do
    paths ← resolve_paths m config_path cfg
    fixture_files ← find_fixtures m paths.fixtures_dir only
    cmd_ci_files
        (record {
          machine = m;
          cfg = cfg;
          paths = paths;
          mode = mode;
          allow_irreversible = allow_irreversible;
        })
        rounds junit_path fixture_files
