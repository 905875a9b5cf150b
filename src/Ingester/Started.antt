-- ===== src/Ingester/Started.antt =====
-- The order in which the ingester starts and stops.
use Prim.Native.String.{◌++◌ as append}
use halley.Common.{ℕ, ◌≡◌, String, Option, none, some, List, [], ◌∷◌, take, arith}
use halley.Config.{Config, ok}
use halley.Ingester.{
  Services, Act, spawn_writer, spawn_lag_poller, spawn_grpc, bind_http, serve_http, signal_writer,
  await_writer, abort_grpc, failed, stopped, Course, main,
}

-- A step that may fail: its context, its error, and the number of acts before it.
pub record Step : Type 0 where
  pub context : String
  pub error : Option String
  pub before : ℕ

abbrev stopped_at :
    {Addr : Type 0}
    → List (Act Addr)
    → (context : String) → Option String
    → (before : ℕ) → Course Addr
    → Course Addr
stopped_at acts context none before rest = rest
stopped_at acts context (some e) before rest = (failed context e, take before acts)

-- The course of a run with these acts, given its steps that may fail: it ends at the first that does.
abbrev pub first_failure : {Addr : Type 0} → List (Act Addr) → List Step → Course Addr
first_failure acts [] = (stopped, acts)
first_failure acts (step ∷ steps) =
    stopped_at acts step.context step.error step.before (first_failure acts steps)

module _ {Addr : Type 0} (x : Services Addr) (cfg : Config Addr) where
  -- All acts of a run.
  abbrev pub acts : List (Act Addr)
  acts =
      spawn_writer
      ∷ spawn_lag_poller
      ∷ spawn_grpc cfg.grpc_addr
      ∷ bind_http cfg.http_addr
      ∷ serve_http cfg.http_addr
      ∷ signal_writer
      ∷ await_writer 10
      ∷ abort_grpc
      ∷ []

  -- The steps of a run that may fail.
  abbrev pub steps : List Step
  steps =
      record {
        context = "connect publisher to Redis";
        error = x.publisher_error 0 cfg.redis_url;
        before = 0;
      }
      ∷ record {
        context = "create writer";
        error = x.writer_error cfg.redis_url "writer-0";
        before = 0;
      }
      ∷ record {
        context = "initialize auth service";
        error = x.auth_error cfg.redis_url cfg.postgres_url cfg.auth_required;
        before = 2;
      }
      ∷ record {
        context = "connect gRPC publisher to Redis";
        error = x.publisher_error 1 cfg.redis_url;
        before = 2;
      }
      ∷ record {
        context = append "bind " (x.addr_text cfg.http_addr);
        error = x.bind_error cfg.http_addr;
        before = 3;
      }
      ∷ record { context = "axum::serve"; error = x.serve_error; before = 5 }
      ∷ []

  -- With a configuration, the ingester starts the writer, the lag poller and the gRPC server, binds the
  -- HTTP address and serves until it is told to stop, tells the writer to stop, awaits it for at most
  -- 10 seconds and aborts the gRPC server; or it ends, with the error under its context, at the first of
  -- the connections, the constructions, the binding and the serving that fails, with the acts before
  -- that done and none after it, so that the writer is told to stop only where none fails.
  pub main-first_failure : main x (ok cfg) ≡ first_failure acts steps
  unfolding main
  main-first_failure = ground arith
