-- ===== src/Gateway/Capacity.antt =====
-- The gateway as gateway/cmd/gateway/main.go starts it, with all its requests: how many of them a worker
-- can have at once.
use llms_chaos.Prelude.{◌≤◌, ◌≡◌, refl, sym, ◌∙◌, ap, String, true, List, [], some, arith}
use llms_chaos.Prelude.Int.{pos}
use llms_chaos.Gateway.{load, start}
use llms_chaos.Prelude.Dict.{lookup}
use llms_chaos.Limiter
use llms_chaos.Limiter.{Limiter, clamp_limits, cap_of, inflight_of}
use llms_chaos.Limiter.Bounds.{run_bounds}
use llms_chaos.Proxy.Attempt.Slots.{limiter_count, count_of, has_limiter}
use llms_chaos.Proxy.World.{World, WorldEvent, world_run}
use llms_chaos.Proxy.World.Limits.{world_run-calls}
use llms_chaos.Proxy.World.Slots.{held_by, slots_conserved}

-- The gateway before its first poll, without a request.
abbrev pub started : (String → String) → World
started getenv = record { forwarder = (start (load getenv)).forwarder; requests = [] }

abbrev first_limiter : Limiter
first_limiter = Limiter.new (pos 32) (pos 1) (pos 256)

started-limiter :
    (getenv : String → String) → (started getenv).forwarder.limiter ≡ some first_limiter
unfolding start load
started-limiter getenv = refl

first_limiter-max : first_limiter.max ≡ 256
unfolding Limiter.new clamp_limits
first_limiter-max = refl

started-idle : (getenv : String → String) (j : String) → count_of j (started getenv).forwarder ≡ 0
unfolding start load Limiter.new inflight_of lookup
started-idle getenv j = refl

started-limited : (getenv : String → String) → has_limiter (started getenv).forwarder ≡ true
unfolding start load
started-limited getenv = refl

-- However the gateway is configured, after any interleaving of arrivals, polls and steps of requests
-- and of their races: the limiter's limit for a worker lies between 1 and 256, its count of requests
-- in flight there is the number of slots that the requests hold, and that is at most 256.
pub capacity_kept :
    (getenv : String → String) (j : String) (w : World) (es : List WorldEvent)
    → world_run (started getenv) es ≡ some w
    → (l : Limiter) × (w.forwarder.limiter ≡ some l)
      × (1 ≤ cap_of l j)
      × (cap_of l j ≤ 256)
      × (inflight_of l j ≡ held_by j w.requests)
      × (held_by j w.requests ≤ 256)
capacity_kept getenv j w es h =
    let (cs, at) = world_run-calls (started getenv) w es first_limiter h (started-limiter getenv) in
    let l = Limiter.run first_limiter cs in
    let (one, _, high, busy) = run_bounds (pos 32) (pos 1) (pos 256) j cs in
    let count =
      sym (ap (limiter_count j) at)
      ∙ slots_conserved j (started getenv) w es (started-limited getenv) refl
          (started-idle getenv j) h in
    (
      l,
      at,
      one,
      omega (arith, high, first_limiter-max),
      count,
      omega (arith, busy, first_limiter-max, count),
    )
