-- ===== src/Receiver/Handlers/Posted.antt =====
-- What a posted span does to the stream.
use halley.Common.{ℕ, String, ◌≡◌, refl, Option, none, some, [], ◌∷◌, ◌++◌}
use halley.External.{External, Uuid}
use halley.Domain.Errors.{Outcome, ok, err, panic, ◌>>=◌}
use halley.Domain.OtlpSpan.{OtlpSpan}
use halley.Domain.Span.{RawSpan}
use halley.Normalizer.Dispatch.{Normalized, normalize}
use halley.Normalizer.HalleyRaw.{raw_span_to_otlp}
use halley.Receiver.Auth.{Cache, validate_token}
use halley.Receiver.Gate.{Checked, allowed, refused, unwrapped}
use halley.Receiver.Gate.Token.{Grants, allowed-Grants}
use halley.Receiver.Ingest.{Stored, publish, sent, publish_rows, owned_rows}
use halley.Receiver.Ingest.Owned.{IsOwned, owned_rows-IsOwned}
use halley.Receiver.Handlers.{
  Server, State, check, json_normalized, into_rows_error, raw_span_rows, accepted_one, post_checked,
  post_span,
}

-- The header lets a request in for the project, and leaves the cache.
abbrev pub LetsIn : Server → String → State → Uuid → Cache → Type 0
LetsIn server header state u cache =
    Grants (validate_token server.ext server.services state.cache) server.auth_required
      server.dev_project_id state.cache header u cache

-- After an answer: a span was accepted, the header let it in for a project, and one entry of that
-- project was added to the stream; or it was not, and the stream is as it was.
abbrev pub IsPosted : Server → String → State → Outcome ℕ → State → Type 0
IsPosted server header state (ok n) after =
    (n ≡ 1)
    × ((u : Uuid) × (row : Stored) × LetsIn server header state u after.cache
        × IsOwned u row
        × (after.stream ≡ state.stream ++ row ∷ []))
IsPosted server header state (err e) after = after.stream ≡ state.stream
IsPosted server header state panic after = after.stream ≡ state.stream

-- A result that is owned, if it is one.
abbrev OwnedBy : Uuid → Outcome Stored → Type 0
OwnedBy u (ok row) = IsOwned u row
OwnedBy u (err e) = Unit
OwnedBy u panic = Unit

normalized-OwnedBy :
    (ext : External) (now : ℕ) (u : Uuid) (n : Normalized)
    → OwnedBy u (json_normalized n >>= λ c. into_rows_error (owned_rows ext now u c))
unfolding json_normalized into_rows_error
normalized-OwnedBy ext now u (Normalized.ok c) =
    let (row, e, owned) = owned_rows-IsOwned ext now u c in rw e owned
normalized-OwnedBy ext now u (Normalized.err e) = tt

raw-OwnedBy :
    (ext : External) (now : ℕ) (u : Uuid) (o : Outcome OtlpSpan)
    → OwnedBy u (
        o >>= λ span.
        json_normalized (normalize ext span) >>= λ c. into_rows_error (owned_rows ext now u c))
raw-OwnedBy ext now u (ok span) = normalized-OwnedBy ext now u (normalize ext span)
raw-OwnedBy ext now u (err e) = tt
raw-OwnedBy ext now u panic = tt

module _ (server : Server) (header : String) (state : State) where
  sent_lem :
      (u : Uuid) (cache : Cache) (row : Stored) (o : Option String)
      → LetsIn server header state u cache
      → IsOwned u row
      → IsPosted server header state
          (accepted_one (sent row state.stream o).0)
          (record { cache = cache; stream = (sent row state.stream o).1 })
  sent_lem u cache row none lets owned = (refl, (u, row, lets, owned, refl))
  sent_lem u cache row (some e) lets owned = refl

  published_lem :
      (u : Uuid) (cache : Cache) (o : Outcome Stored)
      → LetsIn server header state u cache
      → OwnedBy u o
      → let (result, stream) = publish_rows server.publishing o state.stream in
        IsPosted server header state
          (accepted_one result)
          (record { cache = cache; stream = stream })
  unfolding publish
  published_lem u cache (ok row) lets owned =
      sent_lem u cache row (server.publishing state.stream row) lets owned
  published_lem u cache (err e) lets owned = refl
  published_lem u cache panic lets owned = refl

  checked_lem :
      (now : ℕ) (raw : RawSpan) (c : Checked Cache)
      → check server header state ≡ c
      → let (result, after) = post_checked server now raw state c in
        IsPosted server header state result after
  checked_lem now raw (allowed u cache) e =
      published_lem u cache (raw_span_rows server.ext now u raw)
        (allowed-Grants _ _ _ _ header u cache e)
        (raw-OwnedBy server.ext now u (raw_span_to_otlp server.ext raw))
  checked_lem now raw (refused r cache) e = refl
  checked_lem now raw unwrapped e = refl

  -- A span is accepted only where the header lets the request in for a project, and then exactly one
  -- entry is added to the stream, whose observation and bodies are of that project, whatever the span
  -- says; the answer counts 1. Otherwise, by an error or a panic, the stream is as it was.
  pub post_span-IsPosted :
      (now : ℕ) (raw : RawSpan)
      → IsPosted server header state
          (post_span server header now raw state).0
          (post_span server header now raw state).1
  unfolding post_span
  post_span-IsPosted now raw = checked_lem now raw (check server header state) refl
