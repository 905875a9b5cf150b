-- ===== src/Normalizer/HalleyRaw/Plain.antt =====
-- Plain spans, and what the closures of the adapter read from their packed attributes.
use mathlib.Core.Option
use halley.Common.{
  ℕ, ◌^◌, ◌<◌, String, ◌≡◌, refl, sym, ◌∙◌, ap, Bool, true, false, Option, none, some, List, [],
  ◌∷◌, str_eq, if◌then◌else◌, or_else, unwrap_or, and_then, contains, All, arith, eq_iff,
  Bool-cases, inl, inr,
}
use halley.Common.Int.{pos}
use halley.Common.BTreeMap.{get}
use halley.Common.BTreeMap.Laws.{eq_of_SameEntries}
use halley.External.{External, Uuid}
use halley.Json.{Value}
use halley.Domain.OtlpSpan.{AnyValue, as_str, as_u32, to_attr_string}
use halley.Domain.Span.{RawSpan, sort_entries}
use halley.Domain.Span.Sorted.{HasDistinctKeys, get-sort_entries, sort_entries-IsSorted}
use halley.Normalizer.Attrs.{Attributes, str_attr, u32_attr, uuid_attr, tags_attr, extra_attributes}
use halley.Normalizer.Attrs.Extra.{get-extra_attributes, extra_attributes-IsSorted}
use halley.Normalizer.HalleyRaw.{known_keys, json_attr, packed, pass_through}
use halley.Normalizer.HalleyRaw.Lookup.{
  text_value, body_value, get-pass_through, pass_through-IsSorted, Packed, packed-Packed,
}

-- A body that is there is printed to a text that parses to it again.
abbrev pub BodyReadsBack : External → Option Value → Type 0
BodyReadsBack ext none = Unit
BodyReadsBack ext (some v) = ext.from_str (ext.to_string v) ≡ some v

-- A span of the dialect with no run of its own, whose attributes have distinct keys and none of the
-- names of the fields, whose token counts are 32-bit numbers, and whose bodies, tags and UUIDs are
-- read back from their texts.
pub record IsPlain (ext : External) (raw : RawSpan) : Type 0 where
  pub dialect : raw.source_dialect ≡ "halley-raw"
  pub no_run : raw.run_id ≡ none
  pub distinct : HasDistinctKeys raw.attributes
  pub free : All (λ e. contains known_keys e.0 ≡ false) raw.attributes
  pub input_tokens : raw.gen_ai_usage_input_tokens < 2 ^ 32
  pub output_tokens : raw.gen_ai_usage_output_tokens < 2 ^ 32
  pub project : ext.uuid_parse (ext.uuid_to_string raw.project_id) ≡ some raw.project_id
  pub pricing :
      ext.uuid_parse (ext.uuid_to_string raw.pricing_version_id) ≡ some raw.pricing_version_id
  pub tags : ext.tags_from_str (ext.tags_to_string raw.run_tags) ≡ some raw.run_tags
  pub input : BodyReadsBack ext raw.input_body
  pub output : BodyReadsBack ext raw.output_body
  pub tool_input : BodyReadsBack ext raw.tool_input
  pub tool_output : BodyReadsBack ext raw.tool_output

get-free :
    (l : List (String × String)) (k : String)
    → All (λ e. contains known_keys e.0 ≡ false) l
    → contains known_keys k ≡ true
    → get l k ≡ none
unfolding get
get-free [] k f h = refl
get-free ((j, v) ∷ l) k (p, f) h = elim (Bool-cases (str_eq j k)) [
  | inl e ↦ cc (p, h, ap (contains known_keys) ((eq_iff j k).0 e))
  | inr e ↦ rw e (get-free l k f h)
]

or_else-none {ℓ} : {A : Type ℓ} {a b : Option A} → a ≡ none → or_else a b ≡ b
or_else-none e = ground (arith, e)

module _ (ext : External) (raw : RawSpan) (plain : IsPlain ext raw) where
  abbrev pub attrs : Attributes
  attrs = pass_through (packed ext raw) raw.attributes

  pub pack : Packed ext raw (packed ext raw)
  pack = packed-Packed ext raw

  get_of_packed :
      (k : String) (v : AnyValue) → get (packed ext raw) k ≡ some v → get attrs k ≡ some v
  get_of_packed k v e = get-pass_through (packed ext raw) raw.attributes k ∙ ground (arith, e)

  pub str_of :
      (k s : String) → get (packed ext raw) k ≡ some (AnyValue.string s) → str_attr attrs k ≡ s
  unfolding str_attr as_str
  str_of k s e =
      ap (λ (o : Option AnyValue). unwrap_or (and_then o as_str) "")
        (get_of_packed k (AnyValue.string s) e)

  pub u32_of :
      (k : String) (n : ℕ)
      → n < 2 ^ 32
      → get (packed ext raw) k ≡ some (AnyValue.int (pos n))
      → u32_attr attrs k ≡ n
  unfolding u32_attr as_u32
  u32_of k n lt e =
      ap (λ (o : Option AnyValue). unwrap_or (and_then o as_u32) 0)
        (get_of_packed k (AnyValue.int (pos n)) e)
      ∙ omega arith

  pub uuid_of :
      (k : String) (u : Uuid)
      → ext.uuid_parse (ext.uuid_to_string u) ≡ some u
      → get (packed ext raw) k ≡ some (AnyValue.string (ext.uuid_to_string u))
      → uuid_attr ext attrs k ≡ u
  unfolding uuid_attr
  uuid_of k u back e =
      ap (λ (s : String). unwrap_or (ext.uuid_parse s) 0) (str_of k (ext.uuid_to_string u) e)
      ∙ ap (λ (o : Option Uuid). unwrap_or o 0) back

  pub tags_lem : tags_attr ext attrs "run_tags" ≡ raw.run_tags
  unfolding tags_attr as_str
  tags_lem =
      ap (λ (o : Option AnyValue). unwrap_or (and_then (and_then o as_str) ext.tags_from_str) [])
        (get_of_packed "run_tags" (AnyValue.string (ext.tags_to_string raw.run_tags)) pack.run_tags)
      ∙ ap (λ (o : Option (List String)). unwrap_or o []) plain.tags

  body_of_value :
      (k : String) (o : Option Value)
      → BodyReadsBack ext o
      → get attrs k ≡ body_value ext o
      → json_attr ext attrs k ≡ o
  unfolding json_attr as_str
  body_of_value k none back e = ground (arith, e)
  body_of_value k (some v) back e = ground (arith, e, back)

  pub body_lem :
      (k : String) (o : Option Value)
      → contains known_keys k ≡ true
      → BodyReadsBack ext o
      → get (packed ext raw) k ≡ body_value ext o
      → json_attr ext attrs k ≡ o
  body_lem k o known back e = body_of_value k o back (
      get-pass_through (packed ext raw) raw.attributes k
      ∙ ground (arith, e, get-free raw.attributes k plain.free known))

  pub kind_lem :
      str_attr attrs "halley.run.kind" ≡ unwrap_or (get raw.attributes "halley.run.kind") ""
  unfolding str_attr as_str
  kind_lem =
      ap (λ (o : Option AnyValue). unwrap_or (and_then o as_str) "")
        (get-pass_through (packed ext raw) raw.attributes "halley.run.kind")
      ∙ ground (arith, pack.other "halley.run.kind" refl)

  get-attrs_other :
      (k : String) → contains known_keys k ≡ false → get attrs k ≡ text_value (get raw.attributes k)
  get-attrs_other k new =
      get-pass_through (packed ext raw) raw.attributes k ∙ or_else-none (pack.other k new)

  map-text_value : (o : Option String) → Option.map (to_attr_string ext) (text_value o) ≡ o
  unfolding to_attr_string
  map-text_value none = refl
  map-text_value (some s) = refl

  get-extra_cases :
      (b : Bool) (k : String)
      → contains known_keys k ≡ b
      → (if b then none else Option.map (to_attr_string ext) (get attrs k)) ≡ get raw.attributes k
  get-extra_cases true k old = sym (get-free raw.attributes k plain.free old)
  get-extra_cases false k new =
      ap (Option.map (to_attr_string ext)) (get-attrs_other k new)
      ∙ map-text_value (get raw.attributes k)

  get-extra :
      (k : String)
      → get (extra_attributes ext known_keys attrs) k ≡ get (sort_entries raw.attributes) k
  get-extra k =
      get-extra_attributes ext known_keys attrs k
        (pass_through-IsSorted (packed ext raw) raw.attributes pack.sorted)
      ∙ get-extra_cases (contains known_keys k) k refl
      ∙ sym (get-sort_entries raw.attributes plain.distinct k)

  pub extra_lem : extra_attributes ext known_keys attrs ≡ sort_entries raw.attributes
  extra_lem =
      eq_of_SameEntries (extra_attributes ext known_keys attrs) (sort_entries raw.attributes)
        (extra_attributes-IsSorted ext known_keys attrs)
        (sort_entries-IsSorted raw.attributes plain.distinct) get-extra
