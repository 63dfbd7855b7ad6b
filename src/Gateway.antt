-- ===== src/Gateway.antt =====
-- gateway/cmd/gateway/main.go with gateway/internal/config/config.go and the request identifiers of
-- gateway/internal/middleware. The registry's reply, the draws of `Pick` and the environment are
-- parameters. The handler of `/v1/chat/completions` is the proxy's.
pub mod Ready
pub mod Identifiers
pub mod Capacity
mod Tests
use llms_chaos.Prelude.{
  ℕ, ◌+◌, ◌%◌, ◌^◌, ◌*◌, Bool, true, false, String, ◌=ₛ◌, ◌++ₛ◌, List, [], ◌∷◌, Option, none, some,
  if◌then◌else◌,
}
use llms_chaos.Prelude.Int.{ℤ, pos, leb_ℤ}
use llms_chaos.Prelude.Decimal.{show}
use llms_chaos.Breaker.Registry.{new_registry}
use llms_chaos.Hedge.Budget.{new_budget}
use llms_chaos.Limiter
use llms_chaos.Middleware.{Line, new_metrics, render}
use llms_chaos.Router.{Snapshot, Worker, new_pool, update, pick, models}
use llms_chaos.Proxy.{Forwarder}

pub record Config : Type 0 where
  pub listen_addr : String
  pub registry_url : String
  pub dial_timeout : ℕ
  pub header_timeout : ℕ
  pub max_inflight : ℤ

abbrev or_default : String → String → String
or_default v default = if v =ₛ "" then default else v

-- `config.Load`
unfoldable pub load : (String → String) → Config
load getenv = record {
  listen_addr = or_default (getenv "LISTEN_ADDR") ":8000";
  registry_url = or_default (getenv "REGISTRY_URL") "http://localhost:8010/v1/cluster/state";
  dial_timeout = 2;
  header_timeout = 5;
  max_inflight = pos 256;
}

-- What the handlers share, and the version of the registry's last reply.
pub record Gateway : Type 0 where
  pub forwarder : Forwarder
  pub version : ℤ

abbrev nanoseconds : ℕ → ℤ
nanoseconds s = pos (s * 1000000000)

-- `main` up to its loops.
unfoldable pub start : Config → Gateway
start cfg =
    let max_inflight = if leb_ℤ cfg.max_inflight (pos 0) then pos 256 else cfg.max_inflight in
    record {
      forwarder = record {
        pool = new_pool;
        breakers = new_registry (pos 3) (pos 5000000000);
        metrics = new_metrics;
        header_timeout = nanoseconds cfg.header_timeout;
        hedge = some (new_budget (nanoseconds cfg.header_timeout));
        limiter = some (Limiter.new (pos 32) (pos 1) max_inflight);
      };
      version = pos 0;
    }

-- `registryResponse`
pub record RegistryResponse : Type 0 where
  pub version : ℤ
  pub workers : List Snapshot

-- One turn of the loop that asks the registry; there is no response if the request fails or its body
-- does not decode.
unfoldable pub poll : Gateway → Option RegistryResponse → Gateway
poll g none = g
poll g (some rr) =
    let f = g.forwarder in
    record { forwarder = record f { pool = update f.pool rr.workers }; version = rr.version }

pub data Endpoint : Type 0 where
  healthz readyz metrics models_path : Endpoint

-- A reply's status is 200 but for `unavailable`, which is 503.
pub data Reply : Type 0 where
  healthy ready unavailable : Reply
  lines : List Line → Reply
  models_list : List String → Reply

abbrev pub readiness : Option Worker → Reply
readiness none = unavailable
readiness (some w) = ready

abbrev pub ready_gauge : Option Worker → ℤ
ready_gauge none = pos 0
ready_gauge (some w) = pos 1

-- `none` is the panic of an index that is out of range.
abbrev lines_reply : Option (List Line) → Option Reply
lines_reply none = none
lines_reply (some ls) = some (lines ls)

-- The handlers of `main`, with two draws for `Pick`.
unfoldable pub handle : Gateway → Endpoint → ℕ → ℕ → Option Reply
handle g healthz i j = some healthy
handle g readyz i j = some (readiness (pick g.forwarder.pool i j))
handle g metrics i j =
    lines_reply (render g.forwarder.metrics (ready_gauge (pick g.forwarder.pool i j)) g.version)
handle g models_path i j = some (models_list (models g.forwarder.pool))

-- `newID` and the counter behind it, an atomic uint64.
unfoldable pub new_id : ℕ → String × ℕ
new_id counter = let n = (counter + 1) % 2 ^ 64 in ("req-" ++ₛ show n, n)

-- `RequestID`: the identifier of a request with the given `X-Request-ID`, empty where it has none.
unfoldable pub request_id : ℕ → String → String × ℕ
request_id counter header = if header =ₛ "" then new_id counter else (header, counter)

-- The identifiers of requests that arrive one after another.
unfoldable pub request_ids : ℕ → List String → List String
request_ids counter [] = []
request_ids counter (header ∷ headers) =
    let (id, next) = request_id counter header in id ∷ request_ids next headers
