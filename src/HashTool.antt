-- ===== src/HashTool.antt =====
-- The command `canonical-hash`: cli/src/bin/canonical_hash.rs.
use Prim.Native.String.{len}
use text.Mathlib.Text.{is_char_boundary}
use text.Mathlib.TextPositions.{boundary-len}
use halley.Common.{
  ◌≡◌, refl, ◌≤◌, String, Bool, true, Option, none, some, ltb, if◌then◌else◌, arith,
}
use halley.Common.Text.{trim}
use halley.External.{External}
use halley.Json.{Value}
use halley.Canonical.{canonicalize_json, canonical_hash}

-- What it prints on the standard output, unless it panics.
pub data Printed : Type 0 where
  printed : String → Printed
  panicked : Printed

-- Whether `&canonical[..canonical.len().min(200)]` is a text.
unfoldable pub has_preview : (canonical : String) → Bool
has_preview canonical =
    is_char_boundary canonical (if ltb (len canonical) 200 then len canonical else 200)

unfoldable pub print_hash : External → Option Value → Printed
unfolding has_preview
print_hash ext none = panicked
print_hash ext (some value) =
    if has_preview (canonicalize_json ext value)
    then printed (ext.hex_encode (canonical_hash ext value))
    else panicked

-- On the text of the standard input.
unfoldable pub main : External → (input : String) → Printed
unfolding trim print_hash
main ext input = print_hash ext (ext.from_str (trim input))

has_preview_lem : (canonical : String) → len canonical ≤ 200 → has_preview canonical ≡ true
unfolding has_preview
has_preview_lem canonical le = ground (arith, le, boundary-len canonical)

-- The hash of a value is printed where its canonical text is of 200 bytes at most.
print_hash_short :
    (ext : External) (value : Value)
    → len (canonicalize_json ext value) ≤ 200
    → print_hash ext (some value) ≡ printed (ext.hex_encode (canonical_hash ext value))
unfolding print_hash
print_hash_short ext value le = rw (has_preview_lem (canonicalize_json ext value) le) refl
