-- ===== src/Domain/Errors.antt =====
-- ingester/src/errors.rs, and results that may also be a panic.
use halley.Common.{ℕ, String, Option, none, some}
use halley.Json.{Value, object, string, end, field}

pub data IngestError : Type 0 where
  invalid_field : (field : String) (reason : String) → IngestError
  storage : (reason : String) → IngestError
  unauthorized : (reason : String) → IngestError
  not_implemented : IngestError

-- The status code and the JSON body of the response, its keys in the order of a `serde_json` map.
abbrev error_json : String → Value
error_json reason = object (field "error" (string reason) end)

unfoldable pub into_response : IngestError → ℕ × Value
into_response (invalid_field name reason) =
    (400, object (field "error" (string reason) (field "field" (string name) end)))
into_response (storage reason) = (500, error_json reason)
into_response (unauthorized reason) = (401, error_json reason)
into_response not_implemented = (501, error_json "POST /v1/spans/json is implemented on Day 6")

-- `Result<A, IngestError>`, with the runs that panic.
pub data Outcome {ℓ} (A : Type ℓ) : Type ℓ where
  ok : A → Outcome A
  err : IngestError → Outcome A
  panic : Outcome A

infixl 5 ◌>>=◌
abbrev pub ◌>>=◌ {ℓ κ} : {A : Type ℓ} {B : Type κ} → Outcome A → (A → Outcome B) → Outcome B
ok a >>= f = f a
err e >>= f = err e
panic >>= f = panic

-- `Option<Result<A, E>>::transpose`
abbrev pub transpose {ℓ} : {A : Type ℓ} → Option (Outcome A) → Outcome (Option A)
transpose none = ok none
transpose (some (ok a)) = ok (some a)
transpose (some (err e)) = err e
transpose (some panic) = panic
