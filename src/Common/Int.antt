-- ===== src/Common/Int.antt =====
-- Signed integers over the native numbers, and their decimal text.
use Prim.Native.Nat.{ℕ, zero, suc, ◌+◌, ◌/◌, ◌%◌}
use Prim.Native.String.{String, ◌++◌}
use mathlib.Core.List.{[], ◌∷◌}
use halley.Common.Tests.{◌==◌, if◌then◌else◌, unwrap_or}
use halley.Common.Lists.{get_elem?}

-- `negsuc n` is -(n + 1).
pub data ℤ : Type 0 where
  pos : ℕ → ℤ
  negsuc : ℕ → ℤ

-- `i.max(0)`
abbrev pub max_zero : ℤ → ℕ
max_zero (pos n) = n
max_zero (negsuc n) = 0

digit_text : ℕ → String
digit_text d =
    unwrap_or (get_elem? ("0" ∷ "1" ∷ "2" ∷ "3" ∷ "4" ∷ "5" ∷ "6" ∷ "7" ∷ "8" ∷ "9" ∷ []) d) ""

-- The fuel 64 is enough for every 64-bit number, which has at most 20 digits.
nat_text_from : ℕ → ℕ → String
unfolding digit_text
nat_text_from zero n = ""
nat_text_from (suc fuel) n =
    let rest = nat_text_from fuel (n / 10) in
    (if n / 10 == 0 then "" else rest) ++ digit_text (n % 10)

unfoldable pub nat_text : ℕ → String
unfolding nat_text_from
nat_text n = nat_text_from 64 n

-- `i64::to_string`
unfoldable pub int_text : ℤ → String
unfolding nat_text
int_text (pos n) = nat_text n
int_text (negsuc n) = "-" ++ nat_text (n + 1)
