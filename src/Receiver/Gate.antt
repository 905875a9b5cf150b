-- ===== src/Receiver/Gate.antt =====
-- The check of the header `authorization`, the same in the three handlers: ingester/src/http/spans.rs,
-- ingester/src/http/otlp.rs and ingester/src/grpc/otlp.rs.
pub mod Token
use Prim.Native.String.{len, slice}
use halley.Common.{
  String, Bool, true, false, Option, none, some, str_eq, starts_with, if◌then◌else◌, unwrap_or, ◌≡◌,
}
use halley.External.{Uuid}
use halley.Domain.Errors.{IngestError, unauthorized, storage}
use halley.Receiver.Auth.{Validated, project, no_project, failed}

-- Why a request is refused: no usable token, a token of no project, or an error of the service.
pub data Refusal : Type 0 where
  missing_token invalid_key auth_unavailable : Refusal

-- The answer of the check, with the state `S` that a validation leaves; `unwrapped` is the panic of
-- `strip_prefix("Bearer ").unwrap()`.
pub data Checked (S : Type 0) : Type 0 where
  allowed : Uuid → S → Checked S
  refused : Refusal → S → Checked S
  unwrapped : Checked S

unfoldable pub strip_prefix : String → String → Option String
strip_prefix s prefix = if starts_with s prefix then some (slice s (len prefix) (len s)) else none

module _ {S : Type 0} where
  abbrev answered : Validated × S → Checked S
  answered (project pid, s) = allowed pid s
  answered (no_project, s) = refused invalid_key s
  answered (failed e, s) = refused auth_unavailable s

  abbrev with_token : (String → Validated × S) → Option String → Checked S
  with_token validate none = unwrapped
  with_token validate (some token) = answered (validate token)

  -- `header` is the header's text, or empty where there is none or it is no text.
  unfoldable pub authorize :
      (validate : String → Validated × S) (auth_required : Bool) (default_project : Uuid)
      (header : String)
      → S
      → Checked S
  unfolding strip_prefix
  authorize validate auth_required default_project header s =
      if str_eq header ""
      then (if auth_required then refused missing_token s else allowed default_project s)
      else (if starts_with header "Bearer hlly_"
          then with_token validate (strip_prefix header "Bearer ")
          else refused missing_token s)

-- The error of the HTTP handlers.
unfoldable pub refusal_error : Refusal → IngestError
refusal_error missing_token = unauthorized "Missing or invalid Bearer token"
refusal_error invalid_key = unauthorized "Invalid or revoked API key"
refusal_error auth_unavailable = storage "Authentication service unavailable"

-- The status of the gRPC handler.
pub data Status : Type 0 where
  unauthenticated internal : String → Status

unfoldable pub refusal_status : Refusal → Status
refusal_status missing_token = unauthenticated "Missing or invalid Bearer token"
refusal_status invalid_key = unauthenticated "Invalid or revoked API key"
refusal_status auth_unavailable = internal "Authentication service unavailable"
