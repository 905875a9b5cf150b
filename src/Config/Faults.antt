-- ===== src/Config/Faults.antt =====
-- What is wrong with an environment, variable by variable.
use Prim.Native.String.{◌++◌ as append}
use halley.Common.{
  ◌≡◌, refl, ap, ◌∙◌, String, Bool, true, false, Option, none, some, List, [], ◌∷◌, str_eq,
  if◌then◌else◌, unwrap_or, or_else, ◌||◌, arith,
}
use halley.Config.{
  ConfigError, missing, invalid, Loaded, ok, err, ◌>>=◌, Config, Parsed, address, unparsable,
  Process, is_true, is_false, default_postgres_url, required, required_addr, required_flag, present,
  from_env,
}

-- What a variable must be: there, not empty, an address, a truth value.
pub data Demand : Type 0 where
  is_there is_nonempty is_address is_flag : Demand

-- The variables, in the order in which they are looked at.
abbrev pub demands : List (String × Demand)
demands =
    ("INGESTER_HTTP_ADDR", is_address)
    ∷ ("INGESTER_LOG_LEVEL", is_nonempty)
    ∷ ("INGESTER_LOG_JSON", is_flag)
    ∷ ("CLICKHOUSE_URL", is_nonempty)
    ∷ ("CLICKHOUSE_DATABASE", is_nonempty)
    ∷ ("CLICKHOUSE_USER", is_nonempty)
    ∷ ("CLICKHOUSE_PASSWORD", is_there)
    ∷ ("REDIS_URL", is_nonempty)
    ∷ ("INGESTER_GRPC_ADDR", is_address)
    ∷ []

abbrev pub unless {ℓ} : {A : Type ℓ} → Option ConfigError → A → Loaded A
unless none a = ok a
unless (some e) a = err e

unless-bind :
    {A : Type 0} {B : Type 0} (o o' : Option ConfigError) (a : A) (b : B) (l : Loaded A)
    (f : A → Loaded B)
    → l ≡ unless o a
    → f a ≡ unless o' b
    → (l >>= f) ≡ unless (or_else o o') b
unless-bind none o' a b l f e h = ap (λ x. x >>= f) e ∙ h
unless-bind (some c) o' a b l f e h = ap (λ x. x >>= f) e

module _ {Addr : Type 0} (p : Process Addr) where
  abbrev address_fault : String → Parsed Addr → Option ConfigError
  address_fault key (address a) = none
  address_fault key (unparsable reason) = some (invalid key reason)

  abbrev value_fault : Demand → (key v : String) → Option ConfigError
  value_fault is_there key v = none
  value_fault is_nonempty key v = none
  value_fault is_address key v = address_fault key (p.parse_addr v)
  value_fault is_flag key v =
      if is_true v || is_false v
      then none
      else some (invalid key (append "expected true|false, got " (p.debug v)))

  abbrev may_be_empty : Demand → Bool
  may_be_empty is_there = true
  may_be_empty _ = false

  abbrev fault_in : Demand → (key : String) → Option String → Option ConfigError
  fault_in d key none = some (missing key)
  fault_in d key (some v) =
      if may_be_empty d
      then none
      else if str_eq v ""
      then some (invalid key "value is empty")
      else value_fault d key v

  abbrev pub first_fault : List (String × Demand) → Option ConfigError
  first_fault [] = none
  first_fault ((key, d) ∷ rest) = or_else (fault_in d key (p.var key)) (first_fault rest)

  abbrev value : String → String
  value key = unwrap_or (p.var key) ""

  abbrev address_or : Addr → Parsed Addr → Addr
  address_or other (address a) = a
  address_or other (unparsable reason) = other

  -- The configuration that the values make; `other` stands where there is no address.
  abbrev pub config_from : (other : Addr) → Config Addr
  config_from other = record {
    http_addr = address_or other (p.parse_addr (value "INGESTER_HTTP_ADDR"));
    log_level = value "INGESTER_LOG_LEVEL";
    log_json = is_true (value "INGESTER_LOG_JSON");
    clickhouse_url = value "CLICKHOUSE_URL";
    clickhouse_database = value "CLICKHOUSE_DATABASE";
    clickhouse_user = value "CLICKHOUSE_USER";
    clickhouse_password = value "CLICKHOUSE_PASSWORD";
    redis_url = value "REDIS_URL";
    grpc_addr = address_or other (p.parse_addr (value "INGESTER_GRPC_ADDR"));
    auth_required = is_true (unwrap_or (p.var "HALLEY_AUTH_REQUIRED") "false");
    postgres_url = unwrap_or (p.var "POSTGRES_URL") default_postgres_url;
  }

  nonempty_lem :
      (key : String) → required p key ≡ unless (fault_in is_nonempty key (p.var key)) (value key)
  unfolding required
  nonempty_lem key = ground arith

  present_lem :
      (key : String)
      → present p key (p.var key) ≡ unless (fault_in is_there key (p.var key)) (value key)
  present_lem key = ground arith

  flag_lem :
      (key : String)
      → required_flag p key ≡ unless (fault_in is_flag key (p.var key)) (is_true (value key))
  unfolding required_flag required
  flag_lem key = ground arith

  address_lem :
      (other : Addr) (key : String)
      → required_addr p key
        ≡ unless (fault_in is_address key (p.var key)) (address_or other (p.parse_addr (value key)))
  unfolding required_addr required
  address_lem other key = ground arith

  -- The configuration is loaded exactly where no variable is at fault, and is then made of their values,
  -- authentication being required only where that variable says `true` or `1`; else the error is that
  -- of the first variable at fault, in the order of the list.
  pub from_env-first_fault :
      (other : Addr) → from_env p ≡ unless (first_fault demands) (config_from other)
  unfolding from_env
  from_env-first_fault other = unless-bind _ _ _ _ _ _ (address_lem other "INGESTER_HTTP_ADDR") (
      unless-bind _ _ _ _ _ _ (nonempty_lem "INGESTER_LOG_LEVEL") (
        unless-bind _ _ _ _ _ _ (flag_lem "INGESTER_LOG_JSON") (
          unless-bind _ _ _ _ _ _ (nonempty_lem "CLICKHOUSE_URL") (
            unless-bind _ _ _ _ _ _ (nonempty_lem "CLICKHOUSE_DATABASE") (
              unless-bind _ _ _ _ _ _ (nonempty_lem "CLICKHOUSE_USER") (
                unless-bind _ _ _ _ _ _ (present_lem "CLICKHOUSE_PASSWORD") (
                  unless-bind _ _ _ _ _ _ (nonempty_lem "REDIS_URL")
                    (unless-bind _ _ _ _ _ _ (address_lem other "INGESTER_GRPC_ADDR") refl))))))))
