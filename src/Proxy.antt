-- ===== src/Proxy.antt =====
-- gateway/internal/proxy/proxy.go: the forwarder, its parts and the values that they hand on.
pub mod Stream
pub mod Dial
pub mod Attempt
pub mod Serve
pub mod World
use llms_chaos.Prelude.{ℕ, Bool, true, false, ◌&&◌, String, List, Option, none, some, if◌then◌else◌}
use llms_chaos.Prelude.Int.{ℤ, pos, leb_ℤ, ltb_ℤ}
use llms_chaos.Errors.{Error, canceled, deadline_exceeded, net_timeout, busy, no_hedge, failed}
use llms_chaos.Breaker.Registry.{Registry}
use llms_chaos.Hedge.Budget.{Budget, value}
use llms_chaos.Limiter.{Limiter}
use llms_chaos.Middleware.{Metrics}
use llms_chaos.Router.{Pool}

-- `Forwarder`; `Hedge` and `Limiter` may be nil. `DialTimeout` is handed to the dialer only.
pub record Forwarder : Type 0 where
  pub pool : Pool
  pub breakers : Registry
  pub metrics : Metrics
  pub header_timeout : ℤ
  pub hedge : Option Budget
  pub limiter : Option Limiter

-- `isTimeout` of an error that is not nil. `context.DeadlineExceeded` is one, and so is a `net.Error`
-- that says so.
abbrev pub is_timeout : Error → Bool
is_timeout deadline_exceeded = true
is_timeout net_timeout = true
is_timeout _ = false

-- `res.err != nil && isTimeout(res.err)`
abbrev pub is_timeout? : Option Error → Bool
is_timeout? none = false
is_timeout? (some e) = is_timeout e

pub record ChatMessage : Type 0 where
  pub role : String
  pub content : String

-- `temperature` is handed on to the worker only.
pub record ChatRequest : Type 0 where
  pub model : String
  pub messages : List ChatMessage
  pub max_tokens : ℤ
  pub stream : Bool

unfoldable pub with_max_tokens : ChatRequest → ChatRequest
with_max_tokens req =
    if leb_ℤ req.max_tokens (pos 0) then record req { max_tokens = pos 64 } else req

-- The time after which a request is hedged.
unfoldable pub hedge_budget : Forwarder → ℤ
hedge_budget f = elim f.hedge [
  | none ↦ f.header_timeout
  | some b ↦
      let budget = if leb_ℤ (value b) (pos 0) then f.header_timeout else value b in
      if ltb_ℤ (pos 0) f.header_timeout && ltb_ℤ f.header_timeout budget
      then f.header_timeout
      else budget
]

-- `workerFrame`, as decoded from a payload.
pub record Frame : Type 0 where
  pub token : String
  pub index : ℤ
  pub finish_reason : String

-- `outcome`
pub record Outcome : Type 0 where
  pub ok : Bool
  pub sent_headers : Bool
  pub err : Option Error
