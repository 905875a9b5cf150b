-- ===== src/Tests/Settings.antt =====
-- An environment with one variable that is empty.
use halley.Common.{
  ℕ, ◌≡◌, refl, String, true, false, Option, none, some, [], ◌∷◌, str_eq, if◌then◌else◌,
}
use halley.Config.{invalid, err, ok, address, Process, Config, from_env}
use halley.Ingester
use halley.Ingester.{failed, spawn_writer, spawn_lag_poller, spawn_grpc}
use halley.Ingester.Started.{first_failure, acts, steps, main-first_failure}
use halley.Config.Faults.{demands, first_fault, config_from, unless, from_env-first_fault}

abbrev value_of : String → Option String
value_of key =
    if str_eq key "INGESTER_LOG_JSON"
    then some "1"
    else if str_eq key "CLICKHOUSE_USER"
    then some ""
    else some "x"

abbrev test_process : Process ℕ
test_process = record { var = value_of; parse_addr = λ s. address 4318; debug = λ s. s }

from_env_test : from_env test_process ≡ err (invalid "CLICKHOUSE_USER" "value is empty")
unfolding from_env
from_env_test = refl

from_env-first_fault_example :
    from_env test_process ≡ unless (first_fault test_process demands) (config_from test_process 0)
from_env-first_fault_example = from_env-first_fault test_process 0

abbrev test_config : Config ℕ
test_config = record {
  http_addr = 4318;
  log_level = "info";
  log_json = true;
  clickhouse_url = "c";
  clickhouse_database = "halley";
  clickhouse_user = "u";
  clickhouse_password = "";
  redis_url = "r";
  grpc_addr = 4317;
  auth_required = false;
  postgres_url = "p";
}

-- The HTTP address is taken.
abbrev test_services : Ingester.Services ℕ
test_services = record {
  publisher_error = λ connection url. none;
  writer_error = λ url name. none;
  auth_error = λ redis_url postgres_url required. none;
  bind_error = λ a. some "in use";
  serve_error = none;
  addr_text = λ a. "0.0.0.0:4318";
}

start_up_test :
    Ingester.main test_services (ok test_config)
    ≡ (failed "bind 0.0.0.0:4318" "in use", spawn_writer ∷ spawn_lag_poller ∷ spawn_grpc 4317 ∷ [])
unfolding Ingester.main
start_up_test = refl

main-first_failure_example :
    Ingester.main test_services (ok test_config)
    ≡ first_failure (acts test_services test_config) (steps test_services test_config)
main-first_failure_example = main-first_failure test_services test_config
