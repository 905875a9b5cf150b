-- ===== src/Receiver/Ingest/Counts.antt =====
-- What a request adds to the stream, and what it counts.
use mathlib.Core.Path.{subst}
use mathlib.Core.List.{append-nil, append_assoc}
use halley.Common.{
  ℕ, ◌+◌, ◌%◌, ◌^◌, ◌<◌, ◌≡◌, refl, sym, ap, ◌∙◌, Option, none, some, String, List, [], ◌∷◌, ◌++◌,
  All, All-append, length, length-append, arith, ◌⊎◌, inl, inr,
}
use halley.External.{External, Uuid}
use halley.Domain.Errors.{IngestError, Outcome, ok, err, ◌>>=◌}
use halley.Normalizer.Dispatch.{Normalized, normalize}
use halley.Normalizer.Dispatch
use halley.Receiver.Proto.{ProtoSpan, proto_span_to_otlp}
use halley.Receiver.Ingest.{
  Stored, Publishing, sent, publish_error, publish, normalized, owned_rows, process_one_span, Tally,
  counted, ingest_spans, ingest_scopes, ingest_resources, ingest_otlp_request,
}
use halley.Receiver.Ingest.Owned.{IsOwned, owned_rows-IsOwned}

-- From one tally to a later one, over `n` spans: the rows added to the stream are the project's, and
-- the counters count, modulo 2^32, these and the spans that are rejected.
pub record Delivered (u : Uuid) (n : ℕ) (before after : Tally) : Type 0 where
  pub added : List Stored
  pub rejected : ℕ
  pub stream : after.stream ≡ before.stream ++ added
  pub owned : All (IsOwned u) added
  pub accepted : after.accepted ≡ (before.accepted + length added) % 2 ^ 32
  pub errors : after.errors ≡ (before.errors + rejected) % 2 ^ 32
  pub total : length added + rejected ≡ n

-- The counters are 32-bit numbers.
abbrev pub Fits : Tally → Type 0
Fits t = (t.accepted < 2 ^ 32) × (t.errors < 2 ^ 32)

Delivered-none : (u : Uuid) (t : Tally) → Fits t → Delivered u 0 t t
Delivered-none u t (a, e) = record {
  added = [];
  rejected = 0;
  stream = sym (append-nil t.stream);
  owned = tt;
  accepted = omega arith;
  errors = omega arith;
  total = omega arith;
}

Delivered-trans :
    (u : Uuid) (m n : ℕ) (a b c : Tally)
    → Delivered u m a b
    → Delivered u n b c
    → Delivered u (m + n) a c
Delivered-trans u m n a b c d e = record {
  added = d.added ++ e.added;
  rejected = d.rejected + e.rejected;
  stream = e.stream ∙ ap (λ l. l ++ e.added) d.stream ∙ append_assoc a.stream d.added e.added;
  owned = All-append (IsOwned u) d.added e.added d.owned e.owned;
  accepted = omega (arith, d.accepted, e.accepted, length-append d.added e.added);
  errors = omega (arith, d.errors, e.errors);
  total = omega (arith, d.total, e.total, length-append d.added e.added);
}

Fits-after : (u : Uuid) (n : ℕ) (a b : Tally) → Delivered u n a b → Fits b
Fits-after u n a b d = (omega (arith, d.accepted), omega (arith, d.errors))

-- The spans of a request.
abbrev pub count_scopes : List (List (ProtoSpan × ℕ)) → ℕ
count_scopes [] = 0
count_scopes (spans ∷ scopes) = length spans + count_scopes scopes

abbrev pub count_resources : List (List (List (ProtoSpan × ℕ))) → ℕ
count_resources [] = 0
count_resources (scopes ∷ resources) = count_scopes scopes + count_resources resources

-- A result with its tally.
abbrev pub Ends : Uuid → ℕ → Tally → Outcome Tally → Type 0
Ends u n t r = (t' : Tally) × (r ≡ ok t') × Delivered u n t t'

Ends-then :
    (u : Uuid) (m n : ℕ) (t : Tally) (r : Outcome Tally) (f : Tally → Outcome Tally)
    → Ends u m t r
    → ((t' : Tally) → Fits t' → Ends u n t' (f t'))
    → Ends u (m + n) t (r >>= f)
Ends-then u m n t r f (t', e, d) rest =
    let (t'', e', d') = rest t' (Fits-after u m t t' d) in
    (t'', ap (λ x. x >>= f) e ∙ e', Delivered-trans u m n t t' t'' d d')

module _ (ext : External) (publishing : Publishing) (u : Uuid) where
  rows-cases :
      (now : ℕ) (n : Normalized)
      → ((row : Stored) × ((normalized n >>= owned_rows ext now u) ≡ ok row) × IsOwned u row)
        ⊎ ((e : IngestError) × ((normalized n >>= owned_rows ext now u) ≡ err e))
  unfolding normalized
  rows-cases now (Normalized.ok c) = inl (owned_rows-IsOwned ext now u c)
  rows-cases now (Normalized.err Dispatch.unknown_dialect) = inr (_, refl)
  rows-cases now (Normalized.err (Dispatch.failed m)) = inr (_, refl)

  accepted_lem :
      (t : Tally) (row : Stored)
      → Fits t
      → IsOwned u row
      → Ends u 1 t (counted t (ok tt, t.stream ++ row ∷ []))
  accepted_lem t row (a, e) owned = (
    _,
    refl,
    record {
      added = row ∷ [];
      rejected = 0;
      stream = refl;
      owned = (owned, tt);
      accepted = omega arith;
      errors = omega arith;
      total = omega arith;
    },
  )

  rejected_lem :
      (t : Tally) (error : IngestError) → Fits t → Ends u 1 t (counted t (err error, t.stream))
  rejected_lem t error (a, e) = (
    _,
    refl,
    record {
      added = [];
      rejected = 1;
      stream = sym (append-nil t.stream);
      owned = tt;
      accepted = omega arith;
      errors = omega arith;
      total = omega arith;
    },
  )

  sent_lem :
      (t : Tally) (row : Stored) (o : Option String)
      → Fits t
      → IsOwned u row
      → Ends u 1 t (counted t (sent row t.stream o))
  sent_lem t row none fits owned = accepted_lem t row fits owned
  sent_lem t row (some e) fits owned = rejected_lem t (publish_error e) fits

  published_lem :
      (t : Tally) (row : Stored)
      → Fits t
      → IsOwned u row
      → Ends u 1 t (counted t (publish publishing row t.stream))
  unfolding publish
  published_lem t row fits owned = sent_lem t row (publishing t.stream row) fits owned

  span_lem :
      (s : ProtoSpan × ℕ) (t : Tally)
      → Fits t
      → Ends u 1 t (counted t (process_one_span ext publishing u s t.stream))
  unfolding process_one_span
  span_lem (span, now) t fits = elim (rows-cases now (normalize ext (proto_span_to_otlp span))) [
    | inl (row, e, owned) ↦ rw e (published_lem t row fits owned)
    | inr (error, e) ↦ rw e (rejected_lem t error fits)
  ]

  spans_lem :
      (spans : List (ProtoSpan × ℕ)) (t : Tally)
      → Fits t
      → Ends u (length spans) t (ingest_spans ext publishing u spans t)
  unfolding ingest_spans
  spans_lem [] t fits = (t, refl, Delivered-none u t fits)
  spans_lem (s ∷ spans) t fits =
      subst (λ n. Ends u n t (ingest_spans ext publishing u (s ∷ spans) t)) (omega arith)
        (Ends-then u 1 (length spans) t (counted t (process_one_span ext publishing u s t.stream))
          (ingest_spans ext publishing u spans) (span_lem s t fits) (spans_lem spans))

  scopes_lem :
      (scopes : List (List (ProtoSpan × ℕ))) (t : Tally)
      → Fits t
      → Ends u (count_scopes scopes) t (ingest_scopes ext publishing u scopes t)
  unfolding ingest_scopes
  scopes_lem [] t fits = (t, refl, Delivered-none u t fits)
  scopes_lem (spans ∷ scopes) t fits =
      Ends-then u (length spans) (count_scopes scopes) t (ingest_spans ext publishing u spans t)
        (ingest_scopes ext publishing u scopes) (spans_lem spans t fits) (scopes_lem scopes)

  resources_lem :
      (resources : List (List (List (ProtoSpan × ℕ)))) (t : Tally)
      → Fits t
      → Ends u (count_resources resources) t (ingest_resources ext publishing u resources t)
  unfolding ingest_resources
  resources_lem [] t fits = (t, refl, Delivered-none u t fits)
  resources_lem (scopes ∷ resources) t fits =
      Ends-then u (count_scopes scopes) (count_resources resources) t
        (ingest_scopes ext publishing u scopes t) (ingest_resources ext publishing u resources)
        (scopes_lem scopes t fits) (resources_lem resources)

  -- A request is always handled to its end, without a panic. The rows that it adds to the stream are
  -- all of the project given, whatever the spans say; the counters start at 0, and count, modulo 2^32,
  -- the rows added and the spans rejected; and these are together the spans of the request.
  pub ingest_otlp_request-Delivered :
      (request : List (List (List (ProtoSpan × ℕ)))) (stream : List Stored)
      → (t : Tally) × (ingest_otlp_request ext publishing u request stream ≡ ok t)
        × Delivered u
            (count_resources request)
            (record { accepted = 0; errors = 0; stream = stream })
            t
  unfolding ingest_otlp_request
  ingest_otlp_request-Delivered request stream = resources_lem request _ (omega arith, omega arith)
