-- ===== src/Receiver/Proto/RoundTrip.antt =====
-- Spans as protobuf messages, and back by the translation.
use halley.Common.{
  ℕ, zero, suc, ◌-◌, ◌≡◌, refl, ap, ◌∙◌, Option, none, some, List, [], ◌∷◌, map, length, All,
  is_empty, if◌then◌else◌, arith,
}
use halley.Common.BTreeMap.{BTreeMap, collect}
use halley.Common.BTreeMap.Laws.{
  IsSorted, collect-IsSorted, get-collect, get_last-eq-get, eq_of_SameEntries,
}
use halley.Domain.OtlpSpan.{AnyValue, AnyValues, AnyFields, OtlpEvent, OtlpSpan}
use halley.Receiver.Proto.{
  ProtoValue, ProtoValues, KeyValues, ProtoSpan, ProtoEvent, no_values, value, no_entries, entry,
  string_value, bool_value, int_value, double_value, bytes_value, array_value, kvlist_value,
  proto_anyvalue_to_halley, halley_values, halley_entries, kvlist_fields, kvlist_to_btree,
  bytes_to_array, otlp_event, proto_span_to_otlp,
}

-- The message of a value.
unfoldable mutual
  proto_of : AnyValue → ProtoValue
  proto_of (AnyValue.string s) = string_value s
  proto_of (AnyValue.bool b) = bool_value b
  proto_of (AnyValue.int i) = int_value i
  proto_of (AnyValue.double d) = double_value d
  proto_of (AnyValue.bytes b) = bytes_value b
  proto_of (AnyValue.array vs) = array_value (protos_of vs)
  proto_of (AnyValue.kvlist fs) = kvlist_value (entries_of fs)

  protos_of : AnyValues → ProtoValues
  protos_of AnyValues.nil = no_values
  protos_of (AnyValues.cons v vs) = value (proto_of v) (protos_of vs)

  entries_of : AnyFields → KeyValues
  entries_of AnyFields.end = no_entries
  entries_of (AnyFields.field k v fs) = entry k (proto_of v) (entries_of fs)

-- The entries of the `BTreeMap` of a `Kvlist`.
abbrev pub map_of : AnyFields → BTreeMap AnyValue
map_of AnyFields.end = []
map_of (AnyFields.field k v fs) = (k, v) ∷ map_of fs

-- A value of which each `Kvlist`, at any depth, is a `BTreeMap`.
unfoldable mutual
  pub IsValue : AnyValue → Type 0
  IsValue (AnyValue.array vs) = AreValues vs
  IsValue (AnyValue.kvlist fs) = IsSorted (map_of fs) × AreFields fs
  IsValue _ = Unit

  pub AreValues : AnyValues → Type 0
  AreValues AnyValues.nil = Unit
  AreValues (AnyValues.cons v vs) = IsValue v × AreValues vs

  pub AreFields : AnyFields → Type 0
  AreFields AnyFields.end = Unit
  AreFields (AnyFields.field k v fs) = IsValue v × AreFields fs

collect_sorted : (m : BTreeMap AnyValue) → IsSorted m → collect m ≡ m
collect_sorted m s =
    eq_of_SameEntries (collect m) m (collect-IsSorted m) s
      (λ k. get-collect m k ∙ get_last-eq-get m k s)

kvlist_fields-map_of : (fs : AnyFields) → kvlist_fields (map_of fs) ≡ fs
kvlist_fields-map_of AnyFields.end = refl
kvlist_fields-map_of (AnyFields.field k v fs) = ap (AnyFields.field k v) (kvlist_fields-map_of fs)

mutual
  unfolding IsValue proto_of proto_anyvalue_to_halley

  value_lem : (v : AnyValue) → IsValue v → proto_anyvalue_to_halley (proto_of v) ≡ some v
  value_lem (AnyValue.string s) h = refl
  value_lem (AnyValue.bool b) h = refl
  value_lem (AnyValue.int i) h = refl
  value_lem (AnyValue.double d) h = refl
  value_lem (AnyValue.bytes b) h = refl
  value_lem (AnyValue.array vs) h = ap (λ l. some (AnyValue.array l)) (values_lem vs h)
  value_lem (AnyValue.kvlist fs) (s, h) =
      ap (λ l. some (AnyValue.kvlist (kvlist_fields (collect l)))) (fields_lem fs h)
      ∙ ap (λ m. some (AnyValue.kvlist (kvlist_fields m))) (collect_sorted (map_of fs) s)
      ∙ ap (λ l. some (AnyValue.kvlist l)) (kvlist_fields-map_of fs)

  values_lem : (vs : AnyValues) → AreValues vs → halley_values (protos_of vs) ≡ vs
  values_lem AnyValues.nil h = refl
  values_lem (AnyValues.cons v vs) (p, h) =
      rw (value_lem v p) (ap (AnyValues.cons v) (values_lem vs h))

  fields_lem : (fs : AnyFields) → AreFields fs → halley_entries (entries_of fs) ≡ map_of fs
  fields_lem AnyFields.end h = refl
  fields_lem (AnyFields.field k v fs) (p, h) =
      rw (value_lem v p) (ap (λ l. (k, v) ∷ l) (fields_lem fs h))

bytes_to_array_exact : (n : ℕ) (b : List ℕ) → length b ≡ n → bytes_to_array n b ≡ b
unfolding bytes_to_array
bytes_to_array_exact zero [] e = refl
bytes_to_array_exact zero (x ∷ b) e = absurd (omega arith)
bytes_to_array_exact (suc n) [] e = absurd (omega arith)
bytes_to_array_exact (suc n) (x ∷ b) e =
    let less : suc n - suc (length b) ≡ n - length b = omega arith in
    rw less (ap (λ l. x ∷ l) (bytes_to_array_exact n b (omega arith)))

-- The entries of a `BTreeMap`, and those that are one.
abbrev pub fields_of : BTreeMap AnyValue → AnyFields
fields_of [] = AnyFields.end
fields_of ((k, v) ∷ m) = AnyFields.field k v (fields_of m)

abbrev pub IsMap : BTreeMap AnyValue → Type 0
IsMap m = IsSorted m × AreFields (fields_of m)

map_of-fields_of : (m : BTreeMap AnyValue) → map_of (fields_of m) ≡ m
map_of-fields_of [] = refl
map_of-fields_of ((k, v) ∷ m) = ap (λ l. (k, v) ∷ l) (map_of-fields_of m)

map_lem : (m : BTreeMap AnyValue) → IsMap m → kvlist_to_btree (entries_of (fields_of m)) ≡ m
unfolding kvlist_to_btree
map_lem m (s, h) = ap collect (fields_lem (fields_of m) h ∙ map_of-fields_of m) ∙ collect_sorted m s

abbrev event_of : OtlpEvent → ProtoEvent
event_of e = record {
  name = e.name;
  time_unix_nano = e.time_unix_nano;
  attributes = entries_of (fields_of e.attributes);
}

events_lem :
    (events : List OtlpEvent)
    → All (λ (e : OtlpEvent). IsMap e.attributes) events
    → map otlp_event (map event_of events) ≡ events
events_lem [] h = refl
events_lem (e ∷ events) (p, h) = rw (map_lem e.attributes p) (ap (λ l. e ∷ l) (events_lem events h))

abbrev pub HasLength : ℕ → Option (List ℕ) → Type 0
HasLength n none = Unit
HasLength n (some b) = length b ≡ n

abbrev bytes_of : Option (List ℕ) → List ℕ
bytes_of none = []
bytes_of (some b) = b

parent_lem :
    (o : Option (List ℕ))
    → HasLength 8 o
    → (if is_empty (bytes_of o) then none else some (bytes_to_array 8 (bytes_of o))) ≡ o
parent_lem none h = refl
parent_lem (some []) h = absurd (omega (arith, h))
parent_lem (some (x ∷ b)) h = ap (λ l. some l) (bytes_to_array_exact 8 (x ∷ b) h)

-- A span of the types of the source: identifiers of their lengths, and `BTreeMap`s.
pub record IsSpan (span : OtlpSpan) : Type 0 where
  pub trace_id : length span.trace_id ≡ 16
  pub span_id : length span.span_id ≡ 8
  pub parent_span_id : HasLength 8 span.parent_span_id
  pub attributes : IsMap span.attributes
  pub events : All (λ (e : OtlpEvent). IsMap e.attributes) span.events

-- The message of a span, as the protocol has it.
unfoldable pub proto_span_of : OtlpSpan → ProtoSpan
unfolding proto_of
proto_span_of span = record {
  trace_id = span.trace_id;
  span_id = span.span_id;
  parent_span_id = bytes_of span.parent_span_id;
  name = span.name;
  kind = span.kind;
  start_time_unix_nano = span.start_time_unix_nano;
  end_time_unix_nano = span.end_time_unix_nano;
  attributes = entries_of (fields_of span.attributes);
  events = map event_of span.events;
  status = some (record { code = span.status_code; message = span.status_message });
}

-- Of a span whose identifiers have the lengths of the source's types and whose attributes, those of its
-- events and each `Kvlist` in them are `BTreeMap`s: the translation gives it back from its message, with
-- its identifiers, times, status, attributes and events, and each value at any depth.
pub proto_span_to_otlp-proto_span_of :
    (span : OtlpSpan) → IsSpan span → proto_span_to_otlp (proto_span_of span) ≡ span
unfolding proto_span_to_otlp proto_span_of
proto_span_to_otlp-proto_span_of span h =
    rw
      (
        bytes_to_array_exact 16 span.trace_id h.trace_id,
        bytes_to_array_exact 8 span.span_id h.span_id,
        parent_lem span.parent_span_id h.parent_span_id,
        map_lem span.attributes h.attributes,
        events_lem span.events h.events,
      )
      refl
