-- ===== src/Domain/Span/Decode.antt =====
-- When the identifiers of a span are decoded, and to what.
use Prim.Native.String.{len}
use halley.Common.{ℕ, ◌*◌, String, ◌≡◌, refl, ◌≢◌, ◌⊎◌, inl, inr, ◌↔◌, List, length, arith}
use halley.External.{External, Decoded, bytes, malformed}
use halley.Domain.Errors.{ok, panic}
use halley.Domain.Span.{decode_hex_id}

-- `hex::decode` gives one byte for every two characters.
abbrev pub DecodesPairs : External → Type 0
DecodesPairs ext = (s : String) (bs : List ℕ) → ext.hex_decode s ≡ bytes bs → length bs * 2 ≡ len s

Decoded-cases :
    (d : Decoded) → ((bs : List ℕ) × (d ≡ bytes bs)) ⊎ ((m : String) × (d ≡ malformed m))
Decoded-cases (bytes bs) = inl (bs, refl)
Decoded-cases (malformed m) = inr (m, refl)

-- With a `hex::decode` that gives one byte for every two characters, an identifier of N bytes never
-- panics, and is decoded exactly when the text has 2 N bytes and is hexadecimal; the result is what
-- `hex::decode` gives, and has N bytes.
pub decode_hex_id_iff :
    (ext : External) (n : ℕ) (s name : String) (bs : List ℕ)
    → DecodesPairs ext
    → (decode_hex_id ext n s name ≢ panic)
      × ((decode_hex_id ext n s name ≡ ok bs)
          ↔ ((len s ≡ n * 2) × (length bs ≡ n) × (ext.hex_decode s ≡ bytes bs)))
unfolding decode_hex_id
decode_hex_id_iff ext n s name bs law = elim (Decoded-cases (ext.hex_decode s)) [
  | inl (cs, e) ↦ rw e (ground (arith, law s cs e))
  | inr (m, e) ↦ rw e (ground arith)
]
