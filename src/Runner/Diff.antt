-- ===== src/Runner/Diff.antt =====
-- `cmd_diff` of cli/src/main.rs: the comparison of the last hybrid cassette with the baseline.
use halley.Common.{ℕ, String, Option, none, some, [], ◌∷◌, if◌then◌else◌, unwrap_or}
use halley.Runner.Config.{HalleyConfig}
use halley.Runner.Paths.{PathBuf, display}
use halley.Runner.Setup.{
  Machine, ResolvedPaths, resolve_paths, Ran, ok, ◌>>=◌, context, no_diff_runner,
}
use halley.Runner.Fixtures.{compared}
use halley.Runner.Launch.{Launch, is_success}

-- How the command ends: with nothing to compare, with the runner's success, or with an exit code.
pub data Diffed : Type 0 where
  no_cassette same : Diffed
  exited : (code : ℕ) → Diffed

unfoldable pub diff_launch : ResolvedPaths → (baseline current : PathBuf) → Launch
diff_launch paths baseline current = record {
  program = "python3";
  args = "-m" ∷ "halley_sdk.diff_runner" ∷ display baseline ∷ display current ∷ [];
  current_dir = paths.agent_cwd;
  envs = ("PYTHONPATH", paths.pypath) ∷ [];
}

abbrev diffed : Option ℕ → Diffed
diffed status = if is_success status then same else exited (unwrap_or status 1)

abbrev compared_by :
    (run : Launch → Option (Option ℕ)) → ResolvedPaths → Option (PathBuf × PathBuf) → Ran Diffed
compared_by run paths none = ok no_cassette
compared_by run paths (some (baseline, current)) =
    context (run (diff_launch paths baseline current)) no_diff_runner >>= λ status.
    ok (diffed status)

-- `run` is what launching the diff runner gives: its exit status, none where it cannot be launched.
unfoldable pub cmd_diff :
    Machine
    → (run : Launch → Option (Option ℕ)) → (config_path : PathBuf) → HalleyConfig
    → (fixture_slug : String) → Ran Diffed
unfolding diff_launch resolve_paths compared
cmd_diff m run config_path cfg fixture_slug = do
  paths ← resolve_paths m config_path cfg
  files ← compared m paths.fixtures_dir fixture_slug
  compared_by run paths files
