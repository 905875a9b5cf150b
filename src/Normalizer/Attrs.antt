-- ===== src/Normalizer/Attrs.antt =====
-- What every adapter of ingester/src/normalizer does with a span's attributes, and its results.
pub mod Extra
use halley.Common.{
  ℕ, String, Bool, Option, none, some, List, [], ◌∷◌, contains, str_eq, ◌==◌, false, if◌then◌else◌,
  unwrap_or, and_then,
}
use halley.Common.Int.{ℤ, pos}
use halley.Common.BTreeMap.{BTreeMap, get, insert}
use halley.External.{External, Uuid}
use halley.Json.{Value}
use halley.Domain.OtlpSpan.{
  AnyValue, AnyValues, nil, cons, array, as_str, as_u32, to_json, to_attr_string,
}
use halley.Domain.Rows.{SpanStatus, ok, error}

abbrev pub Attributes : Type 0
Attributes = BTreeMap AnyValue

-- The closures `str_attr` and `u32_attr`: a missing key or another variant gives the default.
unfoldable pub str_attr : Attributes → String → String
unfolding get as_str
str_attr attrs key = unwrap_or (and_then (get attrs key) as_str) ""

unfoldable pub u32_attr : Attributes → String → ℕ
unfolding get as_u32
u32_attr attrs key = unwrap_or (and_then (get attrs key) as_u32) 0

-- `str_attr(key).parse::<Uuid>().unwrap_or(Uuid::nil())`
unfoldable pub uuid_attr : External → Attributes → String → Uuid
unfolding str_attr
uuid_attr ext attrs key = unwrap_or (ext.uuid_parse (str_attr attrs key)) 0

unfoldable pub tags_attr : External → Attributes → String → List String
unfolding get as_str
tags_attr ext attrs key =
    unwrap_or (and_then (and_then (get attrs key) as_str) ext.tags_from_str) []

-- A JSON text under a key, if it is there and parses.
unfoldable pub json_str_attr : External → Attributes → String → Option Value
unfolding get as_str
json_str_attr ext attrs key = and_then (and_then (get attrs key) as_str) ext.from_str

-- The loop that keeps the attributes which the adapter does not consume.
unfoldable pub extra_from : External → List String → BTreeMap String → Attributes → BTreeMap String
unfolding insert to_attr_string
extra_from ext consumed acc [] = acc
extra_from ext consumed acc ((k, v) ∷ attrs) =
    extra_from ext consumed
      (if contains consumed k then acc else insert k (to_attr_string ext v) acc) attrs

unfoldable pub extra_attributes : External → List String → Attributes → BTreeMap String
unfolding extra_from
extra_attributes ext consumed attrs = extra_from ext consumed [] attrs

-- `parse_json_anyvalue`, the same in four adapters.
unfoldable pub parse_json_anyvalue : External → AnyValue → Value
unfolding to_json
parse_json_anyvalue ext (AnyValue.string s) = unwrap_or (ext.from_str s) (Value.string s)
parse_json_anyvalue ext v = to_json ext v

abbrev is_error_code : ℤ → Bool
is_error_code (pos n) = n == 2
is_error_code _ = false

-- `match span.status_code { 2 => Error, _ => Ok }`
unfoldable pub status_from_code : ℤ → SpanStatus
status_from_code code = if is_error_code code then error else ok

first_str : AnyValues → String
unfolding as_str
first_str nil = ""
first_str (cons v vs) = unwrap_or (as_str v) ""

-- The first of `gen_ai.response.finish_reasons` if that is an array, or else the singular key.
finish_of : Option AnyValue → String → String
unfolding first_str
finish_of (some (array vs)) singular = first_str vs
finish_of (some _) singular = singular
finish_of none singular = singular

unfoldable pub finish_reason : Attributes → String
unfolding finish_of get str_attr
finish_reason attrs =
    finish_of (get attrs "gen_ai.response.finish_reasons")
      (str_attr attrs "gen_ai.response.finish_reason")

-- `if a.is_empty() { b } else { a }`
abbrev pub or_if_empty : String → String → String
or_if_empty a b = if str_eq a "" then b else a
