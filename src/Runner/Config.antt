-- ===== src/Runner/Config.antt =====
-- `halley.config.json`: cli/src/config.rs.
use mathlib.Core.Option
use halley.Common.{map, false, and_then, String, Bool, Option, List, [], unwrap_or}

pub record AgentConfig : Type 0 where
  pub command : List String
  pub cwd : Option String
  pub fixture_slug : Option String

pub record ShimConfig : Type 0 where
  pub provider : String
  pub replay_env_var : String

pub record ToolConfig : Type 0 where
  pub name : String
  pub irreversible : Bool

-- A headroom factor is the decimal text of its `f64`.
pub record ReplayDefaults : Type 0 where
  pub mode : String
  pub headroom : String

pub record HalleyConfig : Type 0 where
  pub agent : AgentConfig
  pub shim : ShimConfig
  pub fixtures_dir : String
  pub tools : List ToolConfig
  pub replay : ReplayDefaults

abbrev pub default_fixtures_dir : String
default_fixtures_dir = "halley/fixtures"

abbrev pub default_replay_env_var : String
default_replay_env_var = "HALLEY_MODE"

abbrev pub default_replay : ReplayDefaults
default_replay = record { mode = "pure"; headroom = "1.2" }

-- What `serde_json` reads from the file: a field that has a default may be missing.
pub record ShimFields : Type 0 where
  pub provider : String
  pub replay_env_var : Option String

pub record ToolFields : Type 0 where
  pub name : String
  pub irreversible : Option Bool

pub record ReplayFields : Type 0 where
  pub mode : Option String
  pub headroom : Option String

pub record ConfigFields : Type 0 where
  pub agent : AgentConfig
  pub shim : ShimFields
  pub fixtures_dir : Option String
  pub tools : Option (List ToolFields)
  pub replay : Option ReplayFields

abbrev pub shim_config : ShimFields → ShimConfig
shim_config f = record {
  provider = f.provider;
  replay_env_var = unwrap_or f.replay_env_var default_replay_env_var;
}

abbrev pub tool_config : ToolFields → ToolConfig
tool_config f = record { name = f.name; irreversible = unwrap_or f.irreversible false }

abbrev pub replay_defaults : ReplayFields → ReplayDefaults
replay_defaults f = record {
  mode = unwrap_or f.mode default_replay.mode;
  headroom = unwrap_or f.headroom default_replay.headroom;
}

abbrev pub config_of : ConfigFields → HalleyConfig
config_of f = record {
  agent = f.agent;
  shim = shim_config f.shim;
  fixtures_dir = unwrap_or f.fixtures_dir default_fixtures_dir;
  tools = map tool_config (unwrap_or f.tools []);
  replay = unwrap_or (Option.map replay_defaults f.replay) default_replay;
}

-- `contents` is the file's text, where it can be read, and `from_str` the deserializer.
unfoldable pub load :
    (from_str : String → Option ConfigFields) → Option String → Option HalleyConfig
load from_str contents = Option.map config_of (and_then contents from_str)
