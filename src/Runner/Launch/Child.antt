-- ===== src/Runner/Launch/Child.antt =====
-- What an agent that replays a fixture sees of its environment.
use text.Mathlib.TextPositions.{eq_refl}
use halley.Common.{
  ◌≡◌, refl, String, Bool, false, none, some, List, [], ◌∷◌, ◌++◌, is_empty, All, str_eq,
  if◌then◌else◌, or_else, arith, eq_iff,
}
use halley.Common.BTreeMap.{get_last}
use halley.Runner.Config.{HalleyConfig}
use halley.Runner.Paths.{PathBuf, display}
use halley.Runner.Setup.{Machine, ResolvedPaths, ok}
use halley.Runner.Launch.{
  Launch, child_var, irreversible_names, join_texts, noop_key, replay_settings, replay_launch,
}

-- The variables that the runner itself sets.
abbrev pub own_variables : List String
own_variables =
    "PYTHONPATH" ∷ "HALLEY_REPLAY" ∷ "HALLEY_SERVED_JSON" ∷ "HALLEY_COST_JSON" ∷ "HALLEY_HYBRID"
    ∷ "HALLEY_ALLOW_IRREVERSIBLE" ∷ "HALLEY_IRREVERSIBLE_TOOLS" ∷ "OPENAI_API_KEY" ∷ []

-- The launch of a replay: the fixture, the mode variable, the two permissions, the tools that must not
-- run again and the API key, each as the agent sees it.
pub record IsReplay (m : Machine) (cfg : HalleyConfig) (mode : String) (allow_irreversible : Bool)
    (fixture_path : PathBuf) (l : Launch) : Type 0 where
  pub fixture : child_var m l "HALLEY_REPLAY" ≡ some (display fixture_path)
  pub replays : child_var m l cfg.shim.replay_env_var ≡ some "replay"
  pub hybrid :
      child_var m l "HALLEY_HYBRID"
      ≡ (if str_eq mode "hybrid" then some "1" else m.var "HALLEY_HYBRID")
  pub allowed :
      child_var m l "HALLEY_ALLOW_IRREVERSIBLE"
      ≡ (if allow_irreversible then some "1" else m.var "HALLEY_ALLOW_IRREVERSIBLE")
  pub tools : child_var m l "HALLEY_IRREVERSIBLE_TOOLS" ≡ (
      if is_empty (irreversible_names cfg.tools)
      then m.var "HALLEY_IRREVERSIBLE_TOOLS"
      else some (join_texts "," (irreversible_names cfg.tools)))
  pub key :
      child_var m l "OPENAI_API_KEY"
      ≡ or_else (m.var "OPENAI_API_KEY") (if str_eq mode "pure" then some noop_key else none)

module _ (m : Machine) (cfg : HalleyConfig) (paths : ResolvedPaths) (mode : String)
    (allow_irreversible : Bool) (fixture_path : PathBuf) where
  abbrev launched : String → List String → Launch
  launched program args = record {
    program = program;
    args = args ++ [];
    current_dir = paths.agent_cwd;
    envs = replay_settings m cfg paths mode allow_irreversible fixture_path;
  }

  settings-IsReplay :
      (program : String) (args : List String)
      → All (λ name. str_eq cfg.shim.replay_env_var name ≡ false) own_variables
      → IsReplay m cfg mode allow_irreversible fixture_path (launched program args)
  unfolding get_last
  settings-IsReplay program args other = record {
    fixture = ground (arith, other);
    replays = ground (
      arith,
      other,
      eq_refl cfg.shim.replay_env_var,
      eq_iff "OPENAI_API_KEY" cfg.shim.replay_env_var,
      eq_iff cfg.shim.replay_env_var "OPENAI_API_KEY",
    );
    hybrid = ground (arith, other);
    allowed = ground (arith, other);
    tools = ground (arith, other);
    key = ground (arith, other);
  }

  -- In any mode, with an agent command and a mode variable that is none of the runner's own: the agent
  -- is launched in its directory with the fixture to replay and the mode variable `replay`; it may call
  -- live where the mode is `hybrid`, and use tools that cannot be undone where that is allowed, or where
  -- the runner's own environment already says so; it is told the names of those tools; and it has an API
  -- key, the runner's own or, in a pure run, one that is of no use.
  pub replay_launch-IsReplay :
      (program : String) (args : List String)
      → cfg.agent.command ≡ program ∷ args
      → All (λ name. str_eq cfg.shim.replay_env_var name ≡ false) own_variables
      → (l : Launch) × (replay_launch m cfg paths mode allow_irreversible fixture_path ≡ ok l)
        × (l.current_dir ≡ paths.agent_cwd)
        × IsReplay m cfg mode allow_irreversible fixture_path l
  unfolding replay_launch
  replay_launch-IsReplay program args command other =
      (launched program args, rw command refl, refl, settings-IsReplay program args other)
