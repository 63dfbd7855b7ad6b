-- ===== src/Proxy/Attempt.antt =====
-- One attempt of `Serve` in gateway/internal/proxy/proxy.go: the two calls that `primaryFn` and
-- `secondaryFn` make, the cleanup, and the race of the two over the forwarder's state. Between two
-- events of a race any other goroutine may run. The result of `dialFirstToken` comes with the event
-- that ends it.
pub mod Slots
pub mod Conserved
pub mod Kept
use llms_chaos.Prelude.{ℕ, Bool, true, false, String, Option, none, some, if◌then◌else◌}
use llms_chaos.Errors.{Error, busy, no_hedge, Result, ok, err}
use llms_chaos.Breaker.Registry.{allow_for}
use llms_chaos.Hedge.Race
use llms_chaos.Hedge.Race.{
  Race, Branch, running, sent, Reaper, awaits_primary, awaits_secondary, primary_moves,
  secondary_moves, primary_returns, secondary_returns, takes_primary, takes_secondary, timer_fires,
  context_ends, reaps,
}
use llms_chaos.Limiter.{try_acquire, release, on_timeout}
use llms_chaos.Proxy.{Forwarder, is_timeout}
use llms_chaos.Proxy.Stream.{Line}
use llms_chaos.Router.{pick_except}

-- What `dialFirstToken` returns: the first payload and the time that it took.
pub record Dialed : Type 0 where
  pub payload : Line
  pub elapsed : ℕ

-- `firstOutcome`, with the worker's id for the pointer to it.
pub record FirstOutcome : Type 0 where
  pub worker : String
  pub payload : Line
  pub elapsed : ℕ

-- How far a call is: `primaryFn` before it has asked the limiter, `secondaryFn` before it has picked
-- a worker other than the primary, and either while it dials a worker.
pub data Call : Type 0 where
  will_dial will_hedge dialing : String → Call

-- A call goes on, or returns an error.
pub data Begun : Type 0 where
  goes : Call → Begun
  fails : Error → Begun

-- `f.Limiter != nil && !f.Limiter.TryAcquire(id)`, with the test turned round.
unfoldable pub acquire : Forwarder → String → Forwarder × Bool
acquire f id = elim f.limiter [
  | none ↦ (f, true)
  | some l ↦ let (l', got) = try_acquire l id in (record f { limiter = some l' }, got)
]

unfoldable pub give_back : Forwarder → String → Forwarder
give_back f id = elim f.limiter [ none ↦ f | some l ↦ record f { limiter = some (release l id) } ]

unfoldable pub note_timeout : Forwarder → String → Forwarder
note_timeout f id = elim f.limiter [
  | none ↦ f
  | some l ↦ record f { limiter = some (on_timeout l id) }
]

-- The head of either function: its worker, its breaker and its slot.
abbrev pub claim : Forwarder → String → Forwarder × Begun
claim f id = let (f', got) = acquire f id in (f', if got then goes (dialing id) else fails busy)

abbrev pub claim_allowed : Forwarder × Bool → String → Forwarder × Begun
claim_allowed (f, true) id = claim f id
claim_allowed (f, false) id = (f, fails no_hedge)

abbrev pub allowed : Forwarder → String → ℕ → Forwarder × Bool
allowed f id now =
    let (breakers, may) = allow_for f.breakers id now in (record f { breakers = breakers }, may)

unfoldable pub begin_primary : Forwarder → String → Forwarder × Begun
begin_primary f id = claim f id

unfoldable pub begin_secondary : Forwarder → String → ℕ → ℕ → ℕ → Forwarder × Begun
begin_secondary f primary_id i j now = elim (pick_except f.pool primary_id i j) [
  | none ↦ (f, fails no_hedge)
  | some alt ↦ claim_allowed (allowed f alt.id now) alt.id
]

-- The tail of either function.
unfoldable pub end_dial : Forwarder → String → Result Dialed → Forwarder × Result FirstOutcome
end_dial f id (ok d) = (f, ok (record { worker = id; payload = d.payload; elapsed = d.elapsed }))
end_dial f id (err e) =
    let f' = give_back f id in (if is_timeout e then note_timeout f' id else f', err e)

-- `cleanup`; that it closes the connection has no counterpart here.
unfoldable pub cleanup : Forwarder → FirstOutcome → Forwarder
cleanup f o = give_back f o.worker

pub data Side : Type 0 where
  of_primary of_secondary : Side

pub data RaceEvent : Type 0 where
  begins : Side → ℕ → ℕ → ℕ → RaceEvent
  dials : Side → Result Dialed → RaceEvent
  takes : Side → RaceEvent
  fires cleans_up : RaceEvent
  ends : Error → RaceEvent

abbrev pub Attempt : Type 0
Attempt = Race Call FirstOutcome

abbrev pub branch_at : Side → Attempt → Branch Call FirstOutcome
branch_at of_primary s = s.primary
branch_at of_secondary s = s.secondary

abbrev pub moves : Side → Call → Race.Event Call FirstOutcome
moves of_primary c = primary_moves c
moves of_secondary c = secondary_moves c

abbrev pub returns : Side → Result FirstOutcome → Race.Event Call FirstOutcome
returns of_primary r = primary_returns r
returns of_secondary r = secondary_returns r

abbrev pub take_event : Side → Race.Event Call FirstOutcome
take_event of_primary = takes_primary
take_event of_secondary = takes_secondary

-- A step of the race beside a new state of the forwarder.
abbrev pub attach : Forwarder → Option Attempt → Option (Forwarder × Attempt)
attach f none = none
attach f (some s) = some (f, s)

abbrev pub begun : Side → Attempt → Forwarder × Begun → Option (Forwarder × Attempt)
begun side s (f, goes c) = attach f (Race.step s (moves side c))
begun side s (f, fails e) = attach f (Race.step s (returns side (err e)))

abbrev pub begin_at :
    Side → Branch Call FirstOutcome → Forwarder → Attempt → ℕ → ℕ → ℕ → Option (Forwarder × Attempt)
begin_at side (running (will_dial id)) f s i j now = begun side s (begin_primary f id)
begin_at side (running (will_hedge id)) f s i j now = begun side s (begin_secondary f id i j now)
begin_at side _ f s i j now = none

abbrev pub dial_at :
    Side
    → Branch Call FirstOutcome
    → Forwarder
    → Attempt
    → Result Dialed
    → Option (Forwarder × Attempt)
dial_at side (running (dialing id)) f s r =
    let (f', out) = end_dial f id r in attach f' (Race.step s (returns side out))
dial_at side _ f s r = none

-- What the reaper receives, if that is no error.
abbrev pub left_over :
    Reaper → Branch Call FirstOutcome → Branch Call FirstOutcome → Option FirstOutcome
left_over awaits_primary (sent (ok o)) c = some o
left_over awaits_secondary b (sent (ok o)) = some o
left_over _ _ _ = none

abbrev pub clean_up : Forwarder → Option FirstOutcome → Forwarder
clean_up f none = f
clean_up f (some o) = cleanup f o

unfoldable pub race_step : Forwarder → Attempt → RaceEvent → Option (Forwarder × Attempt)
race_step f s (begins side i j now) = begin_at side (branch_at side s) f s i j now
race_step f s (dials side r) = dial_at side (branch_at side s) f s r
race_step f s (takes side) = attach f (Race.step s (take_event side))
race_step f s fires = attach f (Race.step s timer_fires)
race_step f s (ends e) = attach f (Race.step s (context_ends e))
race_step f s cleans_up =
    attach (clean_up f (left_over s.reaper s.primary s.secondary)) (Race.step s reaps)
