-- ===== src/Proxy/World/Tests.antt =====
-- A world whose client leaves, and the theorems there.
use llms_chaos.Prelude.{◌≡◌, refl, true, List, [], ◌∷◌, Option, none, some, get_or}
use llms_chaos.Prelude.Int.{pos}
use llms_chaos.Prelude.Dict.{lookup, insert, retain}
use llms_chaos.Errors.{canceled, ok}
use llms_chaos.Breaker.{fresh, allow}
use llms_chaos.Breaker.Registry.{new_registry, for_id, allow_for, record_for}
use llms_chaos.Breaker.{record_result}
use llms_chaos.Hedge.Budget.{new_budget, value}
use llms_chaos.Hedge.Race
use llms_chaos.Limiter.{clamp_limits, new, try_acquire, inflight_of}
use llms_chaos.Middleware.{new_metrics}
use llms_chaos.Proxy.{Forwarder, ChatRequest, with_max_tokens, hedge_budget}
use llms_chaos.Proxy.Attempt.{
  FirstOutcome, acquire, begin_primary, end_dial, race_step, begins, dials, ends, of_primary,
}
use llms_chaos.Proxy.Attempt.Slots.{count_of}
use llms_chaos.Proxy.Serve
use llms_chaos.Proxy.Serve.{
  Request, receive, choose, choose_primary, after_race, chooses, on_race, settles,
}
use llms_chaos.Proxy.Stream.{frame}
use llms_chaos.Proxy.World.{World, WorldEvent, arrives, polls, runs, world_step, world_run}
use llms_chaos.Proxy.World.Slots.{held_by, slots_conserved}
use llms_chaos.Proxy.World.Failures.{failures_never_counted}
use llms_chaos.Router
use llms_chaos.Router.{
  Snapshot, new_pool, update, take_in, seen, pick, pick_for_key, ready, ready_of,
}

-- The forwarder that the gateway's `main` makes.
abbrev idle_forwarder : Forwarder
idle_forwarder = record {
  pool = new_pool;
  breakers = new_registry (pos 3) (pos 5_000_000_000);
  metrics = new_metrics;
  header_timeout = pos 2_000_000_000;
  hedge = some (new_budget (pos 2_000_000_000));
  limiter = some (new (pos 32) (pos 1) (pos 256));
}

abbrev idle_world : World
idle_world = record { forwarder = idle_forwarder; requests = [] }

abbrev one_ready : List Snapshot
one_ready = record { id = "a"; host = "h"; port = pos 9001; state = "ready"; model = "sim" } ∷ []

abbrev asked : ChatRequest
asked = record { model = "sim"; messages = []; max_tokens = pos 8; stream = true }

-- The primary call has its first token when the client leaves.
abbrev client_leaves : List WorldEvent
client_leaves =
    polls one_ready
    ∷ arrives (some asked) ""
    ∷ runs 0 (chooses 0 0 0 0 1)
    ∷ runs 0 (on_race (begins of_primary 0 0 2))
    ∷ runs 0 (
        on_race (
          dials of_primary (
            ok (record {
              payload = frame (record { token = "hi"; index = pos 0; finish_reason = "" });
              elapsed = 5;
            }))))
    ∷ runs 0 (on_race (ends canceled))
    ∷ runs 0 (settles true 3)
    ∷ []

abbrev or_idle : Option World → World
or_idle none = idle_world
or_idle (some w) = w

abbrev left_world : World
left_world = or_idle (world_run idle_world client_leaves)

client_leaves_runs : world_run idle_world client_leaves ≡ some left_world
unfolding world_run world_step Serve.step receive choose choose_primary after_race new_registry
    new_budget new_metrics new_pool update take_in seen lookup insert retain pick pick_for_key
    Router.choose ready ready_of clamp_limits new allow_for for_id fresh allow hedge_budget value
    Race.start Race.step race_step begin_primary acquire try_acquire end_dial record_for
    record_result with_max_tokens
client_leaves_runs = refl

idle_count : count_of "a" idle_world.forwarder ≡ 0
unfolding inflight_of new lookup
idle_count = refl

slots_conserved_example : count_of "a" left_world.forwarder ≡ held_by "a" left_world.requests
slots_conserved_example =
    slots_conserved "a" idle_world left_world client_leaves refl refl idle_count client_leaves_runs

abbrev first_outcome : FirstOutcome
first_outcome = record {
  worker = "a";
  payload = frame (record { token = "hi"; index = pos 0; finish_reason = "" });
  elapsed = 5;
}

abbrev left_request : Request
left_request = get_or left_world.requests 0 (receive none "")

-- The pool is updated, and another request arrives.
abbrev busy_hours : List WorldEvent
busy_hours = polls one_ready ∷ arrives none "s" ∷ []

abbrev later_world : World
later_world = or_idle (world_run left_world busy_hours)

failures_never_counted_example :
    left_world.forwarder.metrics.failures ≡ idle_world.forwarder.metrics.failures
failures_never_counted_example =
    failures_never_counted idle_world left_world client_leaves client_leaves_runs
