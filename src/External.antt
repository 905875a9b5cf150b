-- ===== src/External.antt =====
-- The functions of third-party crates that the program calls, as one record of parameters.
--
-- `serde_json`, `sha2`, `hex` and `uuid` are not part of the repository. A UUID is its 128-bit
-- value, a digest is its bytes, and an `f64` is its 64-bit pattern.
use halley.Common.{ℕ, String, Option, List}
use halley.Common.Int.{ℤ}
use halley.Json.{Value}

abbrev pub Uuid : Type 0
Uuid = ℕ

-- `hex::FromHexError` enters the program only through its text.
pub data Decoded : Type 0 where
  bytes : List ℕ → Decoded
  malformed : String → Decoded

pub record External : Type 0 where
  -- `serde_json::to_string` of a value, and of a `&str`
  pub to_string : Value → String
  pub key_to_string : String → String
  -- `serde_json::from_str::<Value>(s).ok()`
  pub from_str : String → Option Value
  -- `serde_json::to_string` of a `Vec<String>`, and `from_str::<Vec<String>>(s).ok()`
  pub tags_to_string : List String → String
  pub tags_from_str : String → Option (List String)
  -- `serde_json::Number::from(i64)`, as the number's text, and `json!(f64)`
  pub int_number : ℤ → String
  pub double_json : ℕ → Value
  -- `f64::to_string`
  pub double_to_string : ℕ → String
  -- `Sha256::digest` of the bytes of a text
  pub sha256 : String → List ℕ
  -- `hex::encode`, `hex::decode`
  pub hex_encode : List ℕ → String
  pub hex_decode : String → Decoded
  -- `Uuid::to_string`, `str::parse::<Uuid>().ok()`
  pub uuid_to_string : Uuid → String
  pub uuid_parse : String → Option Uuid
