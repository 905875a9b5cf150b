-- ===== src/Ingester.antt =====
-- The start and the end of the ingester: `main` of ingester/src/main.rs.
pub mod Started
use Prim.Native.String.{◌++◌ as append}
use halley.Common.{ℕ, String, Bool, Option, none, some, List, [], ◌∷◌}
use halley.Common.Int.{ℤ, pos}
use halley.Config.{ConfigError, Config, Loaded, ok, err}

-- How `main` ends: with an error of the configuration, with an error under its context, or well.
pub data Ended : Type 0 where
  unconfigured : ConfigError → Ended
  failed : (context e : String) → Ended
  stopped : Ended

-- What `main` does, by the tasks and servers it starts and stops; an address is where a server listens.
pub data Act (Addr : Type 0) : Type 0 where
  spawn_writer spawn_lag_poller : Act Addr
  spawn_grpc bind_http serve_http : Addr → Act Addr
  signal_writer : Act Addr
  await_writer : (seconds : ℕ) → Act Addr
  abort_grpc : Act Addr

-- What the constructors and servers answer: the text of the error, if there is one. The publisher is
-- connected twice, and `connection` counts from 0.
pub record Services (Addr : Type 0) : Type 0 where
  pub publisher_error : (connection : ℕ) (redis_url : String) → Option String
  pub writer_error : (redis_url consumer_name : String) → Option String
  pub auth_error : (redis_url postgres_url : String) (auth_required : Bool) → Option String
  pub bind_error : Addr → Option String
  pub serve_error : Option String
  pub addr_text : Addr → String

abbrev pub Course : Type 0 → Type 0
Course Addr = Ended × List (Act Addr)

abbrev then_do : {Addr : Type 0} → Act Addr → Course Addr → Course Addr
then_do act (e, acts) = (e, act ∷ acts)

-- `.context(…)?`
abbrev or_fail : {Addr : Type 0} → (context : String) → Option String → Course Addr → Course Addr
or_fail context none rest = rest
or_fail context (some e) rest = (failed context e, [])

module _ {Addr : Type 0} (x : Services Addr) where
  -- How long the writer may take does not change what is done next.
  abbrev shut_down : Course Addr
  shut_down = (stopped, signal_writer ∷ await_writer 10 ∷ abort_grpc ∷ [])

  serve : Config Addr → Course Addr
  serve cfg = or_fail (append "bind " (x.addr_text cfg.http_addr)) (x.bind_error cfg.http_addr) (
      then_do (bind_http cfg.http_addr)
        (then_do (serve_http cfg.http_addr) (or_fail "axum::serve" x.serve_error shut_down)))

  start_servers : Config Addr → Course Addr
  unfolding serve
  start_servers cfg =
      or_fail "initialize auth service"
        (x.auth_error cfg.redis_url cfg.postgres_url cfg.auth_required)
        (or_fail "connect gRPC publisher to Redis" (x.publisher_error 1 cfg.redis_url)
          (then_do (spawn_grpc cfg.grpc_addr) (serve cfg)))

  start : Config Addr → Course Addr
  unfolding start_servers
  start cfg = or_fail "connect publisher to Redis" (x.publisher_error 0 cfg.redis_url) (
      or_fail "create writer" (x.writer_error cfg.redis_url "writer-0")
        (then_do spawn_writer (then_do spawn_lag_poller (start_servers cfg))))

  unfoldable pub main : Loaded (Config Addr) → Course Addr
  unfolding start
  main (err e) = (unconfigured e, [])
  main (ok cfg) = start cfg

-- The poller of the stream's length: the values of the gauge, given the errors of opening and connecting
-- and the answers to `XLEN`, none for an error.
gauges : List (Option ℤ) → List ℤ
gauges [] = []
gauges (none ∷ lags) = pos 0 ∷ gauges lags
gauges (some lag ∷ lags) = lag ∷ gauges lags

unfoldable pub polled : (open_error connect_error : Option String) → List (Option ℤ) → List ℤ
unfolding gauges
polled (some e) connect_error lags = []
polled none (some e) lags = []
polled none none lags = gauges lags
