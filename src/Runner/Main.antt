-- ===== src/Runner/Main.antt =====
-- `main` of cli/src/main.rs: the configuration and the four commands.
use halley.Common.{ℕ, String, Bool, Option, none, some}
use halley.Json.{Value}
use halley.Runner.Paths.{PathBuf, path_of}
use halley.Runner.Config.{HalleyConfig, ConfigFields, load}
use halley.Runner.Setup.{
  Machine, ResolvedPaths, resolve_paths, Ran, ok, ◌>>=◌, context, no_repo, no_config,
}
use halley.Runner.Launch.{Launch, cmd_record}
use halley.Runner.Diff.{Diffed, cmd_diff}
use halley.Runner.Ci.Command.{Round, Verdict, cmd_ci_whole}
use halley.Runner.Bisect.Repo.{World}
use halley.Runner.Bisect.Whole.{Ended, cmd_bisect_whole}

-- The commands with their options, where the defaults are filled in.
pub data Command : Type 0 where
  record_run : (input : Option String) → Command
  ci :
      (only : Option String) (junit : PathBuf) (mode : String) (allow_irreversible : Bool) → Command
  diff : (fixture : String) → Command
  bisect : (fixture : String) (good repo : Option String) → Command

-- What the commands run on: the machine, the answers to its launches, the repository, and the parsers.
pub record Session (S : Type 0) : Type 0 where
  pub machine : Machine
  pub run : Launch → Option (Option ℕ)
  pub rounds : ℕ → Launch → Round
  pub world : World S
  pub current_exe : Option PathBuf
  pub config_from_str : String → Option ConfigFields
  pub read_config : Option String
  pub from_str : String → Option Value

-- How a command ends.
pub data Ending (S : Type 0) : Type 0 where
  recorded : Ending S
  tested : Verdict → Ending S
  compared_with : Diffed → Ending S
  bisected : Ended × S → Ending S

module _ {S : Type 0} (session : Session S) (config_path : PathBuf) where
  abbrev repo_dir_of : ResolvedPaths → Option String → Ran PathBuf
  repo_dir_of paths none = ok paths.config_dir
  repo_dir_of paths (some r) = context (session.machine.canonicalize (path_of r)) no_repo

  -- `cmd_bisect`, with the directory of the repository.
  bisect_in : HalleyConfig → (fixture : String) → (good repo : Option String) → S → Ran (Ended × S)
  unfolding resolve_paths cmd_bisect_whole
  bisect_in cfg fixture good repo s = do
    paths ← resolve_paths session.machine config_path cfg
    repo_dir ← repo_dir_of paths repo
    ok (
        cmd_bisect_whole session.world
          (record {
            machine = session.machine;
            paths = paths;
            current_exe = session.current_exe;
            repo_dir = repo_dir;
            config_path = config_path;
            fixture_slug = fixture;
          })
          good s)

  command : HalleyConfig → Command → S → Ran (Ending S)
  unfolding cmd_record cmd_ci_whole cmd_diff bisect_in
  command cfg (record_run input) s =
      cmd_record session.machine session.run config_path cfg input >>= λ x. ok recorded
  command cfg (ci only junit mode allow_irreversible) s =
      cmd_ci_whole session.from_str session.machine session.rounds config_path cfg only junit mode
        allow_irreversible
      >>= λ v. ok (tested v)
  command cfg (diff fixture) s =
      cmd_diff session.machine session.run config_path cfg fixture >>= λ d. ok (compared_with d)
  command cfg (bisect fixture good repo) s =
      bisect_in cfg fixture good repo s >>= λ e. ok (bisected e)

  unfoldable pub main : Command → S → Ran (Ending S)
  unfolding command load
  main c s = context (load session.config_from_str session.read_config) no_config >>= λ cfg.
      command cfg c s
