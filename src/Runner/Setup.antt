-- ===== src/Runner/Setup.antt =====
-- The directories that a command works with: `resolve_paths` and `find_sdk_py` of cli/src/main.rs.
pub mod SdkPy
use Prim.Native.String.{◌++◌ as append}
use halley.Common.{
  ◌≡◌, refl, ℕ, zero, suc, String, Bool, true, false, not, Option, none, some, List, [], ◌∷◌,
  str_eq, if◌then◌else◌, unwrap_or,
}
use halley.Common.Int.{nat_text}
use halley.Runner.Paths.{PathBuf, path_of, join_path, join_name, parent, display}
use halley.Runner.Config.{HalleyConfig}

-- Why a command stops with an error.
pub data Failure : Type 0 where
  no_config_dir no_sdk_py no_site_dir no_sitecustomize no_launch no_repo no_config : Failure
  no_shim : PathBuf → Failure
  unreadable_dir : PathBuf → Failure
  no_evaluator no_diff_runner no_report : Failure
  agent_exited : Option ℕ → Failure
  no_baseline : PathBuf → Failure

-- `anyhow::Result`, with the runs that panic.
pub data Ran {ℓ} (A : Type ℓ) : Type ℓ where
  ok : A → Ran A
  bail : Failure → Ran A
  panic : Ran A

infixl 5 ◌>>=◌
abbrev pub ◌>>=◌ {ℓ κ} : {A : Type ℓ} {B : Type κ} → Ran A → (A → Ran B) → Ran B
ok a >>= f = f a
bail e >>= f = bail e
panic >>= f = panic

pub ok-bind :
    {A : Type 0} {B : Type 0} (r : Ran A) (f : A → Ran B) (b : B)
    → (r >>= f) ≡ ok b
    → (a : A) × (r ≡ ok a) × (f a ≡ ok b)
ok-bind (ok a) f b e = (a, refl, e)
ok-bind (bail x) f b e = cc
ok-bind panic f b e = cc

-- `Option::context`, and a test that bails.
abbrev pub context {ℓ} : {A : Type ℓ} → Option A → Failure → Ran A
context none e = bail e
context (some a) e = ok a

abbrev pub ensure {ℓ} : {A : Type ℓ} → Bool → Failure → Ran A → Ran A
ensure true e r = r
ensure false e r = bail e

-- What the commands ask of the operating system.
pub record Machine : Type 0 where
  -- `PathBuf::canonicalize`, `exists`, `is_dir`, `is_file`
  pub canonicalize : PathBuf → Option PathBuf
  pub exists : PathBuf → Bool
  pub is_dir : PathBuf → Bool
  pub is_file : PathBuf → Bool
  -- `std::fs::read_dir`: the names of the entries, of which one may be an error
  pub read_dir : PathBuf → Option (List (Option String))
  -- whether `create_dir_all` and `write` succeed
  pub create_dir_all : PathBuf → Bool
  pub write : PathBuf → String → Bool
  -- `std::env::var(..).ok()`, `std::env::temp_dir`, `std::process::id`
  pub var : String → Option String
  pub temp_dir : PathBuf
  pub process_id : ℕ

pub record ResolvedPaths : Type 0 where
  pub config_dir : PathBuf
  pub agent_cwd : PathBuf
  pub sdk_py_dir : PathBuf
  pub fixtures_dir : PathBuf
  pub site_dir : PathBuf
  pub pypath : String

abbrev pub sdk_py_in : PathBuf → PathBuf
sdk_py_in dir = join_name dir "sdk-py"

module _ (m : Machine) where
  -- Whether a directory has the SDK in it.
  abbrev pub has_sdk_py : PathBuf → Bool
  has_sdk_py dir = m.is_dir (join_name (sdk_py_in dir) "halley_sdk")

  find_sdk_py_loop : ℕ → PathBuf → Option PathBuf
  find_sdk_py_loop zero dir = none
  find_sdk_py_loop (suc n) dir = elim (has_sdk_py dir) [
    | true ↦ some (sdk_py_in dir)
    | false ↦ elim (parent dir) [ none ↦ none | some up ↦ find_sdk_py_loop n up ]
  ]

  unfoldable pub find_sdk_py : PathBuf → Option PathBuf
  unfolding find_sdk_py_loop
  find_sdk_py start = find_sdk_py_loop 10 start

  -- `config_path.parent()`, which is `.` where it is missing or empty.
  abbrev config_parent : PathBuf → PathBuf
  config_parent config_path = elim (parent config_path) [
    | none ↦ path_of "."
    | some p ↦ elim p.names [ [] ↦ if p.is_absolute then p else path_of "." | n ∷ names ↦ p ]
  ]

  abbrev agent_cwd_in : PathBuf → Option String → PathBuf
  agent_cwd_in config_dir none = config_dir
  agent_cwd_in config_dir (some cwd) = join_path config_dir (path_of cwd)

  sdk_py_from : PathBuf → Option String → Ran PathBuf
  unfolding find_sdk_py
  sdk_py_from config_dir (some p) = ok (path_of p)
  sdk_py_from config_dir none = context (find_sdk_py config_dir) no_sdk_py

  abbrev pub python_path : (site_dir sdk_py_dir : PathBuf) (existing : String) → String
  python_path site_dir sdk_py_dir existing = append (display site_dir) (
      append ":"
        (append (display sdk_py_dir) (if str_eq existing "" then "" else append ":" existing)))

  unfoldable pub resolve_paths : PathBuf → HalleyConfig → Ran ResolvedPaths
  unfolding sdk_py_from join_path
  resolve_paths config_path cfg = do
    config_dir ← context (m.canonicalize (config_parent config_path)) no_config_dir
    sdk_py_dir ← sdk_py_from config_dir (m.var "HALLEY_SDK_PY_PATH")
    let agent_cwd = agent_cwd_in config_dir cfg.agent.cwd
    let shim = join_name (join_name sdk_py_dir "halley_sdk") "auto.py"
    let site_dir = join_name m.temp_dir (append "halley-shim-" (nat_text m.process_id))
    ensure (m.exists shim) (no_shim shim) (
        ensure (m.create_dir_all site_dir) no_site_dir (
          ensure (m.write (join_name site_dir "sitecustomize.py") "import halley_sdk.auto\n")
            no_sitecustomize
            (ok (record {
              config_dir = config_dir;
              agent_cwd = agent_cwd;
              sdk_py_dir = sdk_py_dir;
              fixtures_dir = join_path agent_cwd (path_of cfg.fixtures_dir);
              site_dir = site_dir;
              pypath = python_path site_dir sdk_py_dir (unwrap_or (m.var "PYTHONPATH") "");
            }))))
