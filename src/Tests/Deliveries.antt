-- ===== src/Tests/Deliveries.antt =====
-- A posted span on its way to the database.
use halley.Common.{ℕ, ◌≡◌, refl, Option, none, some, List, [], ◌∷◌, ◌++◌, All}
use halley.External.{Uuid}
use halley.Domain.Errors.{ok}
use halley.Receiver.Ingest.{Stored, publish, owned_rows}
use halley.Normalizer.Dispatch.{normalize}
use halley.Normalizer.HalleyRaw.{raw_span_to_otlp}
use halley.Receiver.Ingest.Owned.{IsOwned}
use halley.Receiver.Handlers.{State, post_span}
use halley.Receiver.Handlers.Posted.{LetsIn}
use halley.Pipeline.Batch.{Host}
use halley.Pipeline.Writer.{success, process_batch}
use halley.Pipeline.Writer.Outage.{IsOutage}
use halley.Delivery.{ReadsBack, entry_of}
use halley.Delivery.Delivered.{delivery, post_span-delivery}
use halley.Tests.Spans.{raw_span}
use halley.Tests.Requests.{test_server, empty_state, test_header}
use halley.Tests.Batches.{test_host, network_down, network_down-IsOutage, inserted}

abbrev posted : State
posted = (post_span test_server test_header 7 raw_span empty_state).1

accepted : post_span test_server test_header 7 raw_span empty_state ≡ (ok 1, posted)
unfolding post_span raw_span_to_otlp normalize owned_rows publish
accepted = refl

abbrev first_row : List Stored → Option Stored
first_row [] = none
first_row (row ∷ rows) = some row

-- A host that knows the one row of the stream.
abbrev knowing_host : Host
knowing_host = record test_host { deserialize = λ bytes. first_row posted.stream }

abbrev serialized : Stored → List ℕ
serialized row = 0 ∷ []

reads_back : All (ReadsBack knowing_host serialized) posted.stream
unfolding post_span raw_span_to_otlp normalize owned_rows publish
reads_back = (refl, tt)

knowing_host-IsOutage : IsOutage knowing_host network_down
knowing_host-IsOutage = record {
  error = network_down-IsOutage.error;
  failed = network_down-IsOutage.failed;
  transient = network_down-IsOutage.transient;
  slept = network_down-IsOutage.slept;
}

post_span-delivery_example :
    (u : Uuid) × (row : Stored) × LetsIn test_server test_header empty_state u posted.cache
    × IsOwned u row
    × (posted.stream ≡ [] ++ row ∷ [])
    × (process_batch knowing_host
          (entry_of knowing_host serialized ("1-0", row) ∷ [])
          (network_down ∷ network_down ∷ inserted ∷ [])
        ≡ record {
          outcome = success;
          commands =
              delivery knowing_host serialized
                (("1-0", row) ∷ [])
                (network_down ∷ network_down ∷ []);
        })
post_span-delivery_example =
    post_span-delivery knowing_host serialized test_server test_header 7 1 raw_span empty_state
      posted accepted reads_back "1-0" (network_down ∷ network_down ∷ []) inserted []
      (knowing_host-IsOutage, (knowing_host-IsOutage, tt)) refl
