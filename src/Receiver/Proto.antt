-- ===== src/Receiver/Proto.antt =====
-- The protobuf messages of OTLP, and their translation: `proto_span_to_otlp` of
-- ingester/src/pipeline/ingest.rs.
pub mod RoundTrip
use halley.Common.{
  ℕ, ◌-◌, String, Bool, Option, none, some, List, [], ◌∷◌, ◌++◌, map, length, take, replicate,
  is_empty, if◌then◌else◌, unwrap_or,
}
use mathlib.Core.Option
use halley.Common.Int.{ℤ, pos}
use halley.Common.BTreeMap.{BTreeMap, collect}
use halley.Domain.OtlpSpan.{AnyValue, AnyValues, AnyFields, OtlpEvent, OtlpSpan}
use halley.Domain.OtlpSpan

-- `opentelemetry_proto`: an `AnyValue` with no value is `unset`, and a `KeyValue` with no value is
-- `valueless`.
mutual
  pub data ProtoValue : Type 0 where
    unset : ProtoValue
    string_value : String → ProtoValue
    bool_value : Bool → ProtoValue
    int_value : ℤ → ProtoValue
    double_value : ℕ → ProtoValue
    bytes_value : List ℕ → ProtoValue
    array_value : ProtoValues → ProtoValue
    kvlist_value : KeyValues → ProtoValue

  pub data ProtoValues : Type 0 where
    no_values : ProtoValues
    value : ProtoValue → ProtoValues → ProtoValues

  pub data KeyValues : Type 0 where
    no_entries : KeyValues
    entry : String → ProtoValue → KeyValues → KeyValues
    valueless : String → KeyValues → KeyValues

pub record ProtoEvent : Type 0 where
  pub name : String
  pub time_unix_nano : ℕ
  pub attributes : KeyValues

pub record ProtoStatus : Type 0 where
  pub code : ℤ
  pub message : String

pub record ProtoSpan : Type 0 where
  pub trace_id : List ℕ
  pub span_id : List ℕ
  pub parent_span_id : List ℕ
  pub name : String
  pub kind : ℤ
  pub start_time_unix_nano : ℕ
  pub end_time_unix_nano : ℕ
  pub attributes : KeyValues
  pub events : List ProtoEvent
  pub status : Option ProtoStatus

-- The entries of a `BTreeMap` as those of a `Kvlist`.
abbrev pub kvlist_fields : BTreeMap AnyValue → AnyFields
kvlist_fields [] = AnyFields.end
kvlist_fields ((k, v) ∷ m) = AnyFields.field k v (kvlist_fields m)

abbrev push_value : Option AnyValue → AnyValues → AnyValues
push_value none vs = vs
push_value (some v) vs = AnyValues.cons v vs

abbrev push_entry : String → Option AnyValue → List (String × AnyValue) → List (String × AnyValue)
push_entry k none kvs = kvs
push_entry k (some v) kvs = (k, v) ∷ kvs

unfoldable mutual
  unfolding collect

  pub proto_anyvalue_to_halley : ProtoValue → Option AnyValue
  proto_anyvalue_to_halley unset = none
  proto_anyvalue_to_halley (string_value s) = some (AnyValue.string s)
  proto_anyvalue_to_halley (bool_value b) = some (AnyValue.bool b)
  proto_anyvalue_to_halley (int_value i) = some (AnyValue.int i)
  proto_anyvalue_to_halley (double_value d) = some (AnyValue.double d)
  proto_anyvalue_to_halley (bytes_value b) = some (AnyValue.bytes b)
  proto_anyvalue_to_halley (array_value vs) = some (AnyValue.array (halley_values vs))
  proto_anyvalue_to_halley (kvlist_value kvs) =
      some (AnyValue.kvlist (kvlist_fields (collect (halley_entries kvs))))

  -- `filter_map(proto_anyvalue_to_halley)`
  pub halley_values : ProtoValues → AnyValues
  halley_values no_values = AnyValues.nil
  halley_values (value v vs) = push_value (proto_anyvalue_to_halley v) (halley_values vs)

  -- The entries that have a value which is set.
  pub halley_entries : KeyValues → List (String × AnyValue)
  halley_entries no_entries = []
  halley_entries (entry k v kvs) = push_entry k (proto_anyvalue_to_halley v) (halley_entries kvs)
  halley_entries (valueless k kvs) = halley_entries kvs

unfoldable pub kvlist_to_btree : KeyValues → BTreeMap AnyValue
unfolding proto_anyvalue_to_halley collect
kvlist_to_btree kvs = collect (halley_entries kvs)

-- `bytes_to_array_16` and `bytes_to_array_8`: longer texts are cut, and shorter ones filled with zeros.
unfoldable pub bytes_to_array : ℕ → List ℕ → List ℕ
bytes_to_array n b = take n b ++ replicate (n - length b) 0

abbrev pub otlp_event : ProtoEvent → OtlpEvent
otlp_event e = record {
  name = e.name;
  time_unix_nano = e.time_unix_nano;
  attributes = kvlist_to_btree e.attributes;
}

unfoldable pub proto_span_to_otlp : ProtoSpan → OtlpSpan
unfolding kvlist_to_btree bytes_to_array
proto_span_to_otlp span = record {
  trace_id = bytes_to_array 16 span.trace_id;
  span_id = bytes_to_array 8 span.span_id;
  parent_span_id =
      if is_empty span.parent_span_id then none else some (bytes_to_array 8 span.parent_span_id);
  name = span.name;
  kind = span.kind;
  start_time_unix_nano = span.start_time_unix_nano;
  end_time_unix_nano = span.end_time_unix_nano;
  attributes = kvlist_to_btree span.attributes;
  events = map otlp_event span.events;
  status_code = unwrap_or (Option.map (λ (s : ProtoStatus). s.code) span.status) (pos 0);
  status_message = unwrap_or (Option.map (λ (s : ProtoStatus). s.message) span.status) "";
}
