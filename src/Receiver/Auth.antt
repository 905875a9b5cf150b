-- ===== src/Receiver/Auth.antt =====
-- ingester/src/auth.rs: the validation of API keys against a cache in Redis and a table in Postgres.
pub mod Issued
use Prim.Native.String.{◌++◌}
use halley.Common.{String, Bool, false, true, Option, none, some, and_then, if◌then◌else◌}
use halley.Common.BTreeMap.{BTreeMap, get, insert}
use halley.External.{External, Uuid}

-- The keys of Redis that hold cached projects, and their texts.
abbrev pub Cache : Type 0
Cache = BTreeMap String

-- `anyhow::Result<Option<Uuid>>`
pub data Validated : Type 0 where
  project : Uuid → Validated
  no_project : Validated
  failed : String → Validated

-- What the two services answer to one validation: whether Redis is connected, and answers GET and
-- SETEX; and the projects of the keys that are not revoked, by the hash of the key, or `none` where
-- Postgres gives no connection, no statement or no result.
pub record Services : Type 0 where
  pub connected : Bool
  pub reads : Bool
  pub writes : Bool
  pub api_keys : Option (String → Option Uuid)

pub redis_key : External → String → String
redis_key ext token = "hlly_key_hash:" ++ ext.hex_encode (ext.sha256 token)

-- The entry of the cache, if it is a UUID.
abbrev cached : External → Services → Cache → String → Option Uuid
cached ext services cache key =
    if services.reads then and_then (get cache key) ext.uuid_parse else none

abbrev store : External → Services → Cache → String → Uuid → Cache
store ext services cache key project_id =
    if services.writes then insert key (ext.uuid_to_string project_id) cache else cache

abbrev query : External → Services → String → Option Uuid
query ext services token =
    and_then services.api_keys λ table. table (ext.hex_encode (ext.sha256 token))

-- The answer, from the hit in the cache and the result of the query, and the cache after it.
abbrev looked_up :
    External → Services → Cache → String → Option Uuid → Option Uuid → Validated × Cache
looked_up ext services cache key (some project_id) _ = (project project_id, cache)
looked_up ext services cache key none (some project_id) =
    (project project_id, store ext services cache key project_id)
looked_up ext services cache key none none = (no_project, cache)

-- An entry leaves the cache after 60 seconds, between two validations.
unfoldable pub validate_token : External → Services → Cache → String → Validated × Cache
unfolding redis_key get insert
validate_token ext services cache token =
    let key = redis_key ext token in
    if services.connected
    then looked_up ext services cache key (cached ext services cache key) (query ext services token)
    else (no_project, cache)
