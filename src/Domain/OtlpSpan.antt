-- ===== src/Domain/OtlpSpan.antt =====
-- ingester/src/domain/otlp_span.rs: the span that every receiver produces.
use halley.Common.{ℕ, ◌%◌, ◌^◌, String, Bool, Option, none, some, List, if◌then◌else◌, and_then}
use halley.Common.Int.{ℤ, max_zero, int_text}
use halley.Common.BTreeMap.{BTreeMap}
use halley.External.{External}
use halley.Json
use halley.Json.{Value}

-- A `Kvlist` is a `BTreeMap`: its entries are in the order of their keys.
mutual
  pub data AnyValue : Type 0 where
    string : String → AnyValue
    bool : Bool → AnyValue
    int : ℤ → AnyValue
    double : ℕ → AnyValue
    bytes : List ℕ → AnyValue
    array : AnyValues → AnyValue
    kvlist : AnyFields → AnyValue

  pub data AnyValues : Type 0 where
    nil : AnyValues
    cons : AnyValue → AnyValues → AnyValues

  pub data AnyFields : Type 0 where
    end : AnyFields
    field : String → AnyValue → AnyFields → AnyFields

pub record OtlpEvent : Type 0 where
  pub name : String
  pub time_unix_nano : ℕ
  pub attributes : BTreeMap AnyValue

pub record OtlpSpan : Type 0 where
  pub trace_id : List ℕ
  pub span_id : List ℕ
  pub parent_span_id : Option (List ℕ)
  pub name : String
  pub kind : ℤ
  pub start_time_unix_nano : ℕ
  pub end_time_unix_nano : ℕ
  pub attributes : BTreeMap AnyValue
  pub events : List OtlpEvent
  pub status_code : ℤ
  pub status_message : String

unfoldable pub as_str : AnyValue → Option String
as_str (string s) = some s
as_str _ = none

unfoldable pub as_int : AnyValue → Option ℤ
as_int (int i) = some i
as_int _ = none

-- `i.max(0) as u32`
unfoldable pub as_u32 : AnyValue → Option ℕ
unfolding as_int
as_u32 v = and_then (as_int v) (λ i. some (max_zero i % 2 ^ 32))

unfoldable mutual
  pub to_json : External → AnyValue → Value
  to_json ext (string s) = Value.string s
  to_json ext (bool b) = Value.bool b
  to_json ext (int i) = Value.number (ext.int_number i)
  to_json ext (double f) = ext.double_json f
  to_json ext (bytes b) = Value.string (ext.hex_encode b)
  to_json ext (array vs) = Value.array (to_json_items ext vs)
  to_json ext (kvlist fs) = Value.object (to_json_fields ext fs)

  pub to_json_items : External → AnyValues → Json.Items
  to_json_items ext nil = Json.nil
  to_json_items ext (cons v vs) = Json.cons (to_json ext v) (to_json_items ext vs)

  pub to_json_fields : External → AnyFields → Json.Fields
  to_json_fields ext end = Json.end
  to_json_fields ext (field k v fs) = Json.field k (to_json ext v) (to_json_fields ext fs)

unfoldable pub to_attr_string : External → AnyValue → String
unfolding int_text to_json
to_attr_string ext (string s) = s
to_attr_string ext (bool b) = if b then "true" else "false"
to_attr_string ext (int i) = int_text i
to_attr_string ext (double f) = ext.double_to_string f
to_attr_string ext (bytes b) = ext.hex_encode b
to_attr_string ext other = ext.to_string (to_json ext other)
