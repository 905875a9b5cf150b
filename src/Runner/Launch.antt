-- ===== src/Runner/Launch.antt =====
-- The agent processes that `cmd_record` and `cmd_ci` of cli/src/main.rs launch.
pub mod Child
use Prim.Native.String.{◌++◌ as append}
use halley.Common.{
  ℕ, ◌==◌, String, Bool, true, false, ◌&&◌, not, Option, none, some, List, [], ◌∷◌, ◌++◌, map,
  is_some, is_empty, str_eq, if◌then◌else◌, or_else,
}
use halley.Common.BTreeMap.{get_last}
use halley.Runner.Config.{HalleyConfig, ToolConfig}
use halley.Runner.Paths.{PathBuf, join_name, display, stem_and_extension}
use halley.Runner.Setup.{
  Machine, ResolvedPaths, resolve_paths, Ran, ok, bail, panic, ◌>>=◌, context, ensure, no_launch,
  agent_exited,
}

-- `std::process::Command`: of several settings of a variable, the last counts.
pub record Launch : Type 0 where
  pub program : String
  pub args : List String
  pub current_dir : PathBuf
  pub envs : List (String × String)

-- What a launched process sees of a variable: it inherits those that are not set for it.
abbrev pub child_var : Machine → Launch → String → Option String
child_var m l key = or_else (get_last l.envs key) (m.var key)

-- `cfg.agent.command[0]` panics where the command is empty.
abbrev agent_launch :
    List String → (more : List String) → PathBuf → List (String × String) → Ran Launch
agent_launch [] more cwd envs = panic
agent_launch (program ∷ args) more cwd envs =
    ok (record { program = program; args = args ++ more; current_dir = cwd; envs = envs })

abbrev pub option_list {ℓ} : {A : Type ℓ} → Option A → List A
option_list none = []
option_list (some a) = a ∷ []

abbrev pub only_if {ℓ} : {A : Type ℓ} → Bool → A → List A
only_if true a = a ∷ []
only_if false a = []

abbrev slug_setting : Option String → List (String × String)
slug_setting none = []
slug_setting (some slug) = ("HALLEY_FIXTURE_SLUG", slug) ∷ []

unfoldable pub record_launch : HalleyConfig → ResolvedPaths → (input : Option String) → Ran Launch
record_launch cfg paths input = agent_launch cfg.agent.command (option_list input) paths.agent_cwd (
    ("PYTHONPATH", paths.pypath)
    ∷ ("HALLEY_RECORD", "1")
    ∷ ("HALLEY_FIXTURES_DIR", display paths.fixtures_dir)
    ∷ (cfg.shim.replay_env_var, "record")
    ∷ slug_setting cfg.agent.fixture_slug)

-- `ExitStatus`: the code, or none where a signal ended the process.
abbrev pub is_success : Option ℕ → Bool
is_success none = false
is_success (some code) = code == 0

-- `run` is what launching a process gives: none where it cannot be launched.
unfoldable pub cmd_record :
    Machine
    → (run : Launch → Option (Option ℕ)) → (config_path : PathBuf) → HalleyConfig
    → (input : Option String) → Ran (Unit {0})
unfolding record_launch resolve_paths
cmd_record m run config_path cfg input = do
  paths ← resolve_paths m config_path cfg
  launch ← record_launch cfg paths input
  status ← context (run launch) no_launch
  ensure (is_success status) (agent_exited status) (ok tt)

-- `[&str]::join`
unfoldable pub join_texts : String → List String → String
join_texts separator [] = ""
join_texts separator (t ∷ []) = t
join_texts separator (t ∷ u ∷ l) = append t (append separator (join_texts separator (u ∷ l)))

unfoldable pub irreversible_names : List ToolConfig → List String
irreversible_names [] = []
irreversible_names (t ∷ tools) =
    let rest = irreversible_names tools in if t.irreversible then t.name ∷ rest else rest

abbrev irreversible_setting : List String → List (String × String)
irreversible_setting names =
    only_if (not (is_empty names)) ("HALLEY_IRREVERSIBLE_TOOLS", join_texts "," names)

-- `file_stem` of a fixture's path, and the files that its run writes in the site directory.
abbrev slug_of_names : List String → String
slug_of_names [] = ""
slug_of_names (name ∷ names) = (stem_and_extension name).0

abbrev pub fixture_slug : PathBuf → String
fixture_slug p = slug_of_names p.names

abbrev pub site_file : ResolvedPaths → (kind slug : String) → PathBuf
site_file paths kind slug =
    join_name paths.site_dir (append kind (append "-" (append slug ".json")))

abbrev pub noop_key : String
noop_key = "sk-halley-replay-noop"

abbrev pub replay_settings :
    Machine
    → HalleyConfig
    → ResolvedPaths
    → (mode : String) → (allow_irreversible : Bool) → (fixture_path : PathBuf)
    → List (String × String)
replay_settings m cfg paths mode allow_irreversible fixture_path =
    let slug = fixture_slug fixture_path in
    ("PYTHONPATH", paths.pypath)
    ∷ ("HALLEY_REPLAY", display fixture_path)
    ∷ ("HALLEY_SERVED_JSON", display (site_file paths "served" slug))
    ∷ ("HALLEY_COST_JSON", display (site_file paths "cost" slug))
    ∷ (only_if (str_eq mode "hybrid") ("HALLEY_HYBRID", "1")
        ++ (only_if allow_irreversible ("HALLEY_ALLOW_IRREVERSIBLE", "1")
            ++ (irreversible_setting (irreversible_names cfg.tools)
                ++ ((cfg.shim.replay_env_var, "replay")
                    ∷ only_if (str_eq mode "pure" && not (is_some (m.var "OPENAI_API_KEY")))
                        ("OPENAI_API_KEY", noop_key)))))

-- The launch of the agent for one fixture.
unfoldable pub replay_launch :
    Machine
    → HalleyConfig
    → ResolvedPaths
    → (mode : String) → (allow_irreversible : Bool) → (fixture_path : PathBuf) → Ran Launch
unfolding irreversible_names join_texts
replay_launch m cfg paths mode allow_irreversible fixture_path =
    agent_launch cfg.agent.command [] paths.agent_cwd
      (replay_settings m cfg paths mode allow_irreversible fixture_path)
