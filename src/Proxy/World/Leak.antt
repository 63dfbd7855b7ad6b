-- ===== src/Proxy/World/Leak.antt =====
-- What becomes of a slot whose race was abandoned (hedge.go, `case <-ctx.Done()`; proxy.go, the
-- return behind `r.Context().Err()`).
use llms_chaos.Prelude.{ℕ, ◌≡◌, Bool, Option, some, get_elem?}
use llms_chaos.Errors.{Error, ok}
use llms_chaos.Hedge.Race
use llms_chaos.Hedge.Race.{Race, Branch, sent, gave_up, resting}
use llms_chaos.Proxy.Attempt.{Attempt, FirstOutcome}
use llms_chaos.Proxy.Serve
use llms_chaos.Proxy.Serve.{Request, Phase, Reply, replied}
use llms_chaos.Proxy.World.{World}

-- A request whose client has left during the race, with the outcome of the primary in its channel.
pub record IsAbandoned (o : FirstOutcome) (e : Error) (hedged : Bool) (x : Reply) (r : Request)
    : Type 0 where
  pub phase : r.phase ≡ replied x
  pub main : r.race.main ≡ gave_up e hedged
  pub reaper : r.race.reaper ≡ resting
  pub primary : r.race.primary ≡ sent (ok o)

record Stays (o : FirstOutcome) (e : Error) (hedged : Bool) (s : Attempt) : Type 0 where
  main : s.main ≡ gave_up e hedged
  reaper : s.reaper ≡ resting
  primary : s.primary ≡ sent (ok o)

-- The request with a number is abandoned.
abbrev HasAbandoned : FirstOutcome → Error → Bool → Reply → ℕ → World → Type 0
HasAbandoned o e hedged x i w =
    (r : Request) × (get_elem? w.requests i ≡ some r) × IsAbandoned o e hedged x r
