-- ===== src/Lib.antt =====
-- Halley, an ingester of agent traces and a regression runner.
--
-- The ingester (ingester/src) receives spans as JSON (POST /v1/spans/json) and as OTLP, turns each
-- into an `OtlpSpan`, normalizes it by the first adapter that detects its dialect, converts the
-- result to a row with the hashes of its bodies, and publishes row and bodies on a Redis stream. A
-- writer task reads the stream in batches, deduplicates the bodies, inserts both kinds of rows into
-- ClickHouse with retries, and acknowledges the entries. Bodies are hashed by the canonical JSON of
-- halley-canonical, which a command-line tool shares.
--
-- Which file models which part (paths from the root of the repository):
--
--   Common, Common/*         shared names, lists, integers, text order, and `BTreeMap` as the list
--                            of its entries in the order of iteration
--   Json                     `serde_json::Value`
--   External                 the functions of third-party crates, as one record of parameters
--   Canonical                halley-canonical/src/lib.rs: `canonicalize_json`, `canonical_hash`
--   Domain/Errors            ingester/src/errors.rs; `Outcome` is a `Result` that may also panic
--   Domain/OtlpSpan          ingester/src/domain/otlp_span.rs
--   Domain/Rows, Domain/Span ingester/src/domain/span.rs: the rows, `hash_body`, `decode_hex_id`, and
--                            the conversion `TryFrom<RawSpan>`, as `try_from`
--   Domain/CanonicalSpan     ingester/src/domain/canonical.rs: `into_rows`
--   Normalizer/HalleyRaw, OpenLlmetry, OpenInference, VercelAi, OtelGenAi
--                            the adapter of that name in ingester/src/normalizer: `detect` and
--                            `normalize`, with the functions beside them
--   Normalizer/Attrs, Events what the adapters share: the closures on attributes, and the loop over
--                            events of `extract_bodies`
--   Normalizer/Dispatch      ingester/src/normalizer/mod.rs: the registry and `Normalizer::normalize`
--   Pipeline/Retry, Batch, Writer
--                            ingester/src/pipeline/writer.rs: the classification of errors and the
--                            backoff; decoding and deduplication; the writer
--   Receiver/Auth, Gate      ingester/src/auth.rs, and the auth check of the three handlers
--   Receiver/Proto, Ingest   ingester/src/pipeline/ingest.rs and publisher.rs
--   Receiver/Handlers        ingester/src/http/spans.rs, http/otlp.rs and grpc/otlp.rs
--   Delivery                 the stream between the receiver and the writer: what `Publisher::publish`
--                            adds, as `decode_entry` reads it; in Delivery/Database, the writer with
--                            the answers of the store
--   Storage                  ingester/src/storage/clickhouse.rs and ingester/src/http/health.rs
--   Config                   ingester/src/config.rs: `Config::from_env`
--   Ingester                 ingester/src/main.rs: the start and the end of the ingester
--   HashTool                 cli/src/bin/canonical_hash.rs
--   Runner/Main              cli/src/main.rs: `main` and its commands
--   Runner/Config, Paths, Setup
--                            cli/src/config.rs; `std::path`; `resolve_paths` and `find_sdk_py`
--   Runner/Fixtures, Diff    `find_fixtures`, and `cmd_diff`
--   Runner/Launch            `cmd_record`, and the launch of an agent in `cmd_ci`
--   Runner/Ci, Junit         `cmd_ci`: its loop, its verdict and, in Runner/Ci/Command, the whole of
--                            it; `write_junit_xml`
--   Runner/Bisect            `cmd_bisect` from the log and the outcomes of the tests; in Log, Repo and
--                            Whole, on a repository, with the calls of git and the runs of the CI
--   Tests, Tests/*           libraries to run with, and the theorems at concrete inputs
--
-- State and effects. A function that reads the clock takes the time as an argument. The writer is a
-- function from what Redis and ClickHouse answer, and from whether a shutdown interrupts a sleep,
-- to the list of commands it issues: `insert_loop` is the inner loop on the list of answers to come,
-- `process_batch` is one batch, and `run` is the main loop on the list of turns. They need no fuel: a
-- loop stops where the answers given are used up, and `still_retrying` says so. The search of the
-- bisection is on fuel, one for each test of a commit; a test halves the range, so that the fuel is
-- enough for a range of 2 to the power of the fuel.
--
-- The commands of the CLI ask a machine, a record of what the file system, the environment and the
-- launches answer; `cmd_bisect_whole` works on a state that every call of git and every run may change,
-- and takes the number of candidates as the fuel of its search, which is enough since each test leaves
-- fewer of them. A path is its components, on a Unix system and in valid Unicode, so that `.` and double
-- slashes do not show; `Ran` is an `anyhow::Result` whose errors are named, or a panic.
--
-- `main` of the ingester is the course of what it starts and stops, given the errors of the constructors
-- and servers; what goes on in its tasks is the writer and the handlers above.
--
-- Integers are natural numbers with the wrap of `as u32` written out; an `i64` is an integer. A digest
-- and an identifier are lists of bytes; a UUID is its value; an `f64` is its bit pattern, and only
-- third-party code looks at it. A JSON number is the text it is printed as.
--
-- The receivers change a state of two parts, the cache of keys and the stream, which is the list of
-- its entries; the answers of Redis, Postgres and the publisher, and the decoded bodies, are arguments.
--
-- Not modelled: logs, metrics and the summary of costs that a hybrid run prints; the routing
-- table of the ingester and the construction of its clients, which are calls of libraries; the parsing
-- of arguments and of configuration files by `clap` and `serde`; everything that is not written in
-- Rust.
pub mod Common
pub mod Json
pub mod External
pub mod Canonical
pub mod Domain
pub mod Normalizer
pub mod Pipeline
pub mod Receiver
pub mod Delivery
pub mod Storage
pub mod Config
pub mod Ingester
pub mod Runner
pub mod HashTool
pub mod Tests
