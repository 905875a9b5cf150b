-- ===== src/Tests/Storage.antt =====
-- Hashing and decoding, on small values.
use Prim.Native.String.{len}
use halley.Common.{
  ℕ, ◌*◌, ◌%◌, ◌/◌, String, ◌≡◌, refl, ◌≢◌, ◌↔◌, some, List, length, replicate, arith, ◌==◌, eq_iff,
  Bool-cases, inl, inr, length-replicate,
}
use halley.External.{bytes}
use halley.Json.{Value, string, null, object, end, field, Fields}
use halley.Canonical.{canonicalize_json, canonical_hash}
use halley.Canonical.KeyOrder.{objects, swap, canonical_hash-key_order}
use halley.HashTool.{panicked, print_hash}
use halley.Domain.Errors.{ok, panic}
use halley.Domain.Span.{decode_hex_id}
use halley.Domain.Span.Decode.{DecodesPairs, decode_hex_id_iff}
use halley.Tests.{test_external}

abbrev two_fields : Fields
two_fields = field "b" (string "x") (field "a" null end)

canonicalize_json_test :
    canonicalize_json test_external (object two_fields) ≡ "{\"a\":null,\"b\":\"x\"}"
unfolding canonicalize_json
canonicalize_json_test = refl

abbrev b_before_a : Value
b_before_a = object two_fields

abbrev a_before_b : Value
a_before_b = object (field "a" null (field "b" (string "x") end))

b-ne-a : ◌≢◌ {A = String} "b" "a"
b-ne-a e = cc ((eq_iff "b" "a").1 e)

canonical_hash-key_order_example :
    (canonicalize_json test_external b_before_a ≡ canonicalize_json test_external a_before_b)
    × (canonical_hash test_external b_before_a ≡ canonical_hash test_external a_before_b)
canonical_hash-key_order_example =
    canonical_hash-key_order test_external {v = b_before_a} {w = a_before_b}
      (objects (swap "b" "a" (string "x") null end b-ne-a))

abbrev eight_bytes : List ℕ
eight_bytes = replicate 8 171

decoded_pairs : DecodesPairs test_external
decoded_pairs s bs e = elim (Bool-cases (len s % 2 == 0)) [
  | inl even ↦ ground (arith, even, e, length-replicate {A = ℕ} (len s / 2) 171)
  | inr odd ↦ ground (arith, odd, e)
]

decode_hex_id_iff_example :
    (decode_hex_id test_external 8 "00f067aa0ba902b7" "span_id" ≢ panic)
    × ((decode_hex_id test_external 8 "00f067aa0ba902b7" "span_id" ≡ ok eight_bytes) ↔ (
        (len "00f067aa0ba902b7" ≡ 8 * 2)
        × (length eight_bytes ≡ 8)
        × (test_external.hex_decode "00f067aa0ba902b7" ≡ bytes eight_bytes)))
decode_hex_id_iff_example =
    decode_hex_id_iff test_external 8 "00f067aa0ba902b7" "span_id" eight_bytes decoded_pairs

-- A text that the preview of 200 bytes would cut in a character.
abbrev long_text : String
long_text =
    "xxxxxxxxxxxxxxxxxxxxxxxxxxxxxxxxxxxxxxxxxxxxxxxxxxxxxxxxxxxxxxxxxxxxxxxxxxxxxxxxxxxxxxxxxxxxxxxxxxxxxxxxxxxxxxxxxxxxxxxxxxxxxxxxxxxxxxxxxxxxxxxxxxxxxxxxxxxxxxxxxxxxxxxxxxxxxxxxxxxxxxxxxxxxxxxxxxxxxxé"

print_hash_test : print_hash test_external (some (string long_text)) ≡ panicked
unfolding print_hash canonicalize_json
print_hash_test = refl
