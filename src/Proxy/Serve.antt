-- ===== src/Proxy/Serve.antt =====
-- `Serve` of gateway/internal/proxy/proxy.go as a state machine: an event is one stretch of the
-- handler between two places where it waits, or a step of a race that it has started. A race whose
-- caller has returned goes on beside the handler until its calls have come to an end.
pub mod Orderly
pub mod Slots
pub mod Conserved
pub mod Kept
pub mod Advance
pub mod Replies
pub mod Retry
mod Tests
use llms_chaos.Prelude.{
  ℕ, suc, ◌/◌, Bool, true, false, not, ◌||◌, String, ◌=ₛ◌, List, [], ◌++◌, Option, none, some, ltb,
  ◌==◌, if◌then◌else◌,
}
use llms_chaos.Prelude.Int.{pos}
use llms_chaos.Errors.{Error, is_busy, Result, ok, err}
use llms_chaos.Breaker.Registry.{record_for}
use llms_chaos.Hedge.Budget
use llms_chaos.Hedge.Race
use llms_chaos.Hedge.Race.{Main, returned, gave_up}
use llms_chaos.Limiter.{on_success}
use llms_chaos.Middleware.{retry, reject}
use llms_chaos.Proxy.{Forwarder, ChatRequest, is_timeout?, with_max_tokens, hedge_budget, Outcome}
use llms_chaos.Proxy.Attempt.{
  Attempt, Call, FirstOutcome, RaceEvent, will_dial, will_hedge, allowed, give_back, note_timeout,
  race_step,
}
use llms_chaos.Proxy.Stream.{Read, Write, stream_from_first_token}
use llms_chaos.Router.{Worker, pick_except, pick_for_key, observe_in}

-- How a request ends: 400, 503, 429, with no reply to a client that has left, with what the stream
-- wrote, or 502.
pub data Reply : Type 0 where
  bad_request no_workers overloaded client_gone answered bad_gateway : Reply

-- Where the handler stands: at the top of the loop, in the race, in front of the stream, or behind
-- its return.
pub data Phase : Type 0 where
  choosing racing : Phase
  streaming : FirstOutcome → Phase
  replied : Reply → Phase

-- `lastErr` is left out: the reply behind the loop is the same with and without it.
pub record Request : Type 0 where
  pub body : Option ChatRequest
  pub session_key : String
  pub attempt : ℕ
  pub prev_id : String
  pub phase : Phase
  pub race : Attempt  -- of this attempt
  pub older : Attempt  -- of the attempt before it
  pub written : List Write

-- A race that is over before it began.
abbrev pub no_race : Attempt
no_race = Race.start (pos 0) none none true

-- The head of the handler; a body that does not decode is `none`.
unfoldable pub receive : Option ChatRequest → String → Request
receive none key = record {
  body = none;
  session_key = key;
  attempt = 0;
  prev_id = "";
  phase = replied bad_request;
  race = no_race;
  older = no_race;
  written = [];
}
receive (some req) key = record {
  body = some (with_max_tokens req);
  session_key = key;
  attempt = 0;
  prev_id = "";
  phase = choosing;
  race = no_race;
  older = no_race;
  written = [];
}

abbrev pub wants_stream : Option ChatRequest → Bool
wants_stream none = false
wants_stream (some req) = req.stream

-- `continue`, and the reply behind the loop.
abbrev pub next_attempt : Request → Request
next_attempt r =
    if ltb (suc r.attempt) 2
    then record r { attempt = suc r.attempt; phase = choosing }
    else record r { attempt = suc r.attempt; phase = replied bad_gateway }

abbrev pub pick_again : Forwarder → String → ℕ → ℕ → Forwarder × Option Worker
pick_again f key i j = let (pool, w) = pick_for_key f.pool key i j in (record f { pool = pool }, w)

abbrev pub or_pick_again : Forwarder → Option Worker → String → ℕ → ℕ → Forwarder × Option Worker
or_pick_again f (some w) key i j = (f, some w)
or_pick_again f none key i j = pick_again f key i j

-- The choice of the primary worker.
unfoldable pub choose_primary : Forwarder → Request → ℕ → ℕ → ℕ → ℕ → Forwarder × Option Worker
choose_primary f r i j k l =
    if r.attempt == 0
    then pick_again f r.session_key i j
    else (let f' = record f { metrics = retry f.metrics } in
        if not (r.prev_id =ₛ "")
        then or_pick_again f' (pick_except f'.pool r.prev_id i j) r.session_key k l
        else pick_again f' r.session_key i j)

abbrev pub hedge_call : Option Budget.Budget → String → Option Call
hedge_call none id = none
hedge_call (some _) id = some (will_hedge id)

-- Without a hedge budget the primary is called outright, which is a race with a nil secondary.
abbrev pub start_race : Forwarder → Request → String → Request
start_race f r id = record r {
  race = Race.start (hedge_budget f) (some (will_dial id)) (hedge_call f.hedge id) true;
  older = r.race;
  phase = racing;
}

abbrev pub try_primary : Forwarder × Bool → Request → String → Forwarder × Request
try_primary (f, true) r id = (f, start_race f r id)
try_primary (f, false) r id = (f, next_attempt r)

abbrev pub go_on_with : Forwarder × Option Worker → Request → ℕ → Forwarder × Request
go_on_with (f, none) r now = (f, record r { phase = replied no_workers })
go_on_with (f, some w) r now = try_primary (allowed f w.id now) (record r { prev_id = w.id }) w.id

-- From the top of the loop to the race.
unfoldable pub choose : Forwarder → Request → ℕ → ℕ → ℕ → ℕ → ℕ → Forwarder × Request
choose f r i j k l now = go_on_with (choose_primary f r i j k l) r now

abbrev pub count_hedged : Forwarder → Bool → Forwarder
count_hedged f hedged = if hedged then record f { metrics = retry f.metrics } else f

-- Behind the race; `ctx_ended` is `r.Context().Err() != nil`.
unfoldable pub after_race :
    Forwarder → Request → Result FirstOutcome → Bool → ℕ → Forwarder × Request
after_race f r (ok o) ctx_ended now = (f, record r { phase = streaming o })
after_race f r (err e) ctx_ended now =
    if is_busy e
    then (record f { metrics = reject f.metrics }, record r { phase = replied overloaded })
    else (
      record f { breakers = record_for f.breakers r.prev_id false now },
      if ctx_ended then record r { phase = replied client_gone } else next_attempt r,
    )

abbrev pub settle :
    Main FirstOutcome → Forwarder → Request → Bool → ℕ → Option (Forwarder × Request)
settle (returned res hedged) f r ctx_ended now =
    some (after_race (count_hedged f hedged) r res ctx_ended now)
settle (gave_up e hedged) f r ctx_ended now =
    some (after_race (count_hedged f hedged) r (err e) true now)
settle _ f r ctx_ended now = none

-- The limiter behind the stream.
unfoldable pub limit_after : Forwarder → String → Outcome → Forwarder
limit_after f id res =
    let f' = give_back f id in
    if res.ok
    then elim f'.limiter [ none ↦ f' | some l ↦ record f' { limiter = some (on_success l id) } ]
    else if is_timeout? res.err
    then note_timeout f' id
    else f'

abbrev pub observe_hedge : Option Budget.Budget → Bool → ℕ → Option Budget.Budget
observe_hedge none told elapsed = none
observe_hedge (some b) told elapsed = some (if told then Budget.observe b (pos elapsed) else b)

-- Behind the stream.
unfoldable pub after_stream : Forwarder → Request → FirstOutcome → Outcome → ℕ → Forwarder × Request
after_stream f r o res now =
    let f' = limit_after f o.worker res in
    (
      record f' {
        breakers = record_for f'.breakers o.worker res.ok now;
        hedge = observe_hedge f'.hedge (res.ok || res.sent_headers) o.elapsed;
        pool = observe_in f'.pool o.worker (o.elapsed / 1_000_000);
      },
      if res.ok || res.sent_headers then record r { phase = replied answered } else next_attempt r,
    )

-- The stream and what stands behind it.
unfoldable pub stream_first :
    Forwarder → Request → FirstOutcome → Option Error → List Read → Error → ℕ → Forwarder × Request
stream_first f r o ctx_err reads e now =
    let (s, res) =
      stream_from_first_token f.metrics (wants_stream r.body) o.elapsed o.payload ctx_err reads e in
    after_stream (record f { metrics = s.metrics }) (record r { written = r.written ++ s.writes }) o
      res now

pub data Event : Type 0 where
  chooses : ℕ → ℕ → ℕ → ℕ → ℕ → Event
  on_race on_older : RaceEvent → Event
  settles : Bool → ℕ → Event
  streams : Option Error → List Read → Error → ℕ → Event

abbrev pub with_race : Request → Option (Forwarder × Attempt) → Option (Forwarder × Request)
with_race r none = none
with_race r (some (f, s)) = some (f, record r { race = s })

abbrev pub with_older : Request → Option (Forwarder × Attempt) → Option (Forwarder × Request)
with_older r none = none
with_older r (some (f, s)) = some (f, record r { older = s })

abbrev pub handler_step : Phase → Forwarder → Request → Event → Option (Forwarder × Request)
handler_step choosing f r (chooses i j k l now) = some (choose f r i j k l now)
handler_step racing f r (settles ctx_ended now) = settle r.race.main f r ctx_ended now
handler_step (streaming o) f r (streams ctx_err reads e now) =
    some (stream_first f r o ctx_err reads e now)
handler_step _ f r e = none

-- `none`: the event cannot happen in this state.
unfoldable pub step : Forwarder → Request → Event → Option (Forwarder × Request)
step f r (on_race e) = with_race r (race_step f r.race e)
step f r (on_older e) = with_older r (race_step f r.older e)
step f r e = handler_step r.phase f r e
