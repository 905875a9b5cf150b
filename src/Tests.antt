-- ===== src/Tests.antt =====
-- The libraries that the tests run with, and spans and batches to run on.
pub mod Storage
pub mod Spans
pub mod Batches
pub mod Requests
pub mod Bisections
pub mod Reports
pub mod Runs
pub mod Settings
pub mod Deliveries
pub mod Warehouse
pub mod Turns
pub mod Repos
use halley.Common.{
  ℕ, ◌%◌, ◌/◌, String, ◌≡◌, Bool, true, false, Option, none, some, List, [], ◌∷◌, replicate, ◌==◌,
  str_eq, if◌then◌else◌,
}
use halley.Common.Int.{pos, int_text}
use halley.External.{External, Uuid, Decoded, bytes, malformed}
use halley.Json.{Value, null, string, object, end}
use Prim.Native.String.{len, ◌++◌}

abbrev quoted : String → String
quoted s = "\"" ++ (s ++ "\"")

abbrev value_text : Value → String
value_text (string s) = quoted s
value_text _ = "null"

abbrev parsed : String → Option Value
parsed s = if str_eq s "\"hi\"" then some (string "hi") else none

abbrev tags_text : List String → String
tags_text [] = "[]"
tags_text (t ∷ _) = t

abbrev parsed_tags : String → Option (List String)
parsed_tags s = if str_eq s "[]" then some [] else some (s ∷ [])

abbrev decoded_hex : String → Decoded
decoded_hex s =
    if len s % 2 == 0 then bytes (replicate (len s / 2) 171) else malformed "Odd number of digits"

abbrev uuid_text : Uuid → String
uuid_text u = if u == 1 then "one" else "two"

abbrev parsed_uuid : String → Option Uuid
parsed_uuid s = if str_eq s "one" then some 1 else if str_eq s "two" then some 2 else none

abbrev pub test_external : External
test_external = record {
  to_string = value_text;
  key_to_string = quoted;
  from_str = parsed;
  tags_to_string = tags_text;
  tags_from_str = parsed_tags;
  int_number = int_text;
  double_json = λ d. null;
  double_to_string = λ d. "0.5";
  sha256 = λ s. len s ∷ [];
  hex_encode = λ bs. "ab";
  hex_decode = decoded_hex;
  uuid_to_string = uuid_text;
  uuid_parse = parsed_uuid;
}
