-- ===== src/Pipeline/Retry.antt =====
-- The classification of insert errors and the backoff of ingester/src/pipeline/writer.rs.
pub mod Backoff
use Prim.Native.Nat.{min}
use Prim.Native.String.{◌++◌}
use text.Mathlib.Text.{find?}
use halley.Common.{ℕ, ◌-◌, ◌*◌, ◌^◌, String, Bool, ◌||◌, is_some}
use halley.Domain.Errors.{IngestError, invalid_field, storage, unauthorized, not_implemented}

-- `Display` of the error.
unfoldable pub error_text : IngestError → String
error_text (invalid_field name reason) = "invalid field " ++ (name ++ (": " ++ reason))
error_text (storage reason) = "storage error: " ++ reason
error_text (unauthorized reason) = "unauthorized: " ++ reason
error_text not_implemented = "not implemented"

abbrev pub str_contains : String → String → Bool
str_contains s t = is_some (find? s t)

-- `lower` is `str::to_lowercase`, which follows the tables of Unicode.
unfoldable pub is_transient_error : (lower : String → String) → IngestError → Bool
unfolding error_text
is_transient_error lower e =
    let msg = lower (error_text e) in
    str_contains msg "network"
    || (str_contains msg "connect"
        || (str_contains msg "connection refused"
            || (str_contains msg "dns"
                || (str_contains msg "timeout"
                    || (str_contains msg "broken pipe"
                        || (str_contains msg "reset by peer"
                            || (str_contains msg "eof"
                                || (str_contains msg "os error"
                                    || (str_contains msg "tcp"
                                        || str_contains msg "io error")))))))))

-- `base.saturating_mul(1u64 << attempt.min(7)).min(cap)`
unfoldable pub transient_backoff_ms : ℕ → ℕ
transient_backoff_ms attempt = min (min (200 * 2 ^ min attempt 7) (2 ^ 64 - 1)) 30000
