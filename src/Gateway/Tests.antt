-- ===== src/Gateway/Tests.antt =====
-- The gateway behind its start, and the theorems at concrete replies and requests.
use llms_chaos.Prelude.{◌≤◌, ◌≡◌, ◌≢◌, refl, true, Option, none, String, List, [], ◌∷◌, some, arith}
use llms_chaos.Prelude.Int.{pos}
use llms_chaos.Prelude.Decimal.{show}
use llms_chaos.Router.{
  Snapshot, new_pool, update, take_in, seen, pick, pick_for_key, ready, ready_of,
}
use llms_chaos.Router.Membership.{new_pool-IsValid}
use llms_chaos.Gateway.{
  Gateway, RegistryResponse, load, start, poll, handle, readyz, ready as is_ready, new_id,
  request_id, request_ids,
}
use llms_chaos.Gateway.Ready.{readyz-iff-ListsReady}
use llms_chaos.Gateway.Identifiers.{request_ids_distinct}
use llms_chaos.Gateway.Capacity.{capacity_kept}
use llms_chaos.Gateway.Capacity
use llms_chaos.Breaker.{fresh, allow}
use llms_chaos.Breaker.Registry.{new_registry, for_id, allow_for}
use llms_chaos.Hedge.Budget.{new_budget, value}
use llms_chaos.Hedge.Race
use llms_chaos.Limiter.{Limiter, clamp_limits, new, try_acquire, cap_of, inflight_of}
use llms_chaos.Middleware.{new_metrics}
use llms_chaos.Proxy.{with_max_tokens, hedge_budget}
use llms_chaos.Proxy.Attempt.{acquire, begin_primary, race_step, begins, of_primary}
use llms_chaos.Proxy.Serve
use llms_chaos.Proxy.Serve.{receive, choose, choose_primary, chooses, on_race}
use llms_chaos.Proxy.World.{World, WorldEvent, arrives, polls, runs, world_step, world_run}
use llms_chaos.Proxy.World.Slots.{held_by}
use llms_chaos.Router
use llms_chaos.Prelude.Dict.{lookup, insert, retain}

abbrev started : Gateway
started = start (load (λ name. ""))

abbrev up_again : Snapshot
up_again = record { id = "w1"; host = "h"; port = pos 9101; state = "ready"; model = "m" }

abbrev response : RegistryResponse
response = record {
  version = pos 7;
  workers = record up_again { state = "draining" } ∷ up_again ∷ [];
}

readyz-iff-ListsReady_example : handle (poll started (some response)) readyz 3 5 ≡ some is_ready
unfolding start
readyz-iff-ListsReady_example =
    (readyz-iff-ListsReady started response 3 5 new_pool-IsValid).1 ("w1", up_again, refl, refl)

abbrev headers : List String
headers = "" ∷ "mine" ∷ "" ∷ []

request_ids_some : request_ids 0 headers ≡ "req-1" ∷ "mine" ∷ "req-2" ∷ []
unfolding request_ids request_id new_id show
request_ids_some = refl

request_ids_distinct_example : ◌≢◌ {A = String} "req-1" "req-2"
unfolding request_ids request_id new_id show
request_ids_distinct_example =
    request_ids_distinct 0 0 2 headers "req-1" "req-2" (omega arith) (omega arith) (omega arith)
      refl refl refl refl

-- A worker comes up, and the call of a request dials it.
abbrev first_call : List WorldEvent
first_call =
    polls (up_again ∷ [])
    ∷ arrives (some (record { model = "m"; messages = []; max_tokens = pos 8; stream = true })) ""
    ∷ runs 0 (chooses 0 0 0 0 1)
    ∷ runs 0 (on_race (begins of_primary 0 0 2))
    ∷ []

abbrev new_gateway : World
new_gateway = Capacity.started (λ name. "")

abbrev or_new : Option World → World
or_new none = new_gateway
or_new (some w) = w

abbrev calling : World
calling = or_new (world_run new_gateway first_call)

first_call_runs : world_run new_gateway first_call ≡ some calling
unfolding start load world_run world_step Serve.step receive choose choose_primary new_registry
    new_budget new_metrics new_pool update take_in seen lookup insert retain pick pick_for_key
    Router.choose ready ready_of clamp_limits new allow_for for_id fresh allow hedge_budget value
    Race.start Race.step race_step begin_primary acquire try_acquire with_max_tokens
first_call_runs = refl

capacity_kept_example :
    (l : Limiter) × (calling.forwarder.limiter ≡ some l)
    × (1 ≤ cap_of l "w1")
    × (cap_of l "w1" ≤ 256)
    × (inflight_of l "w1" ≡ held_by "w1" calling.requests)
    × (held_by "w1" calling.requests ≤ 256)
capacity_kept_example = capacity_kept (λ name. "") "w1" calling first_call first_call_runs
