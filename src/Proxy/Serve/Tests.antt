-- ===== src/Proxy/Serve/Tests.antt =====
-- A request whose worker cannot be reached, and the theorems there.
use llms_chaos.Prelude.{
  ◌≤◌, ◌≡◌, ◌≢◌, refl, arith, eq_iff, true, false, List, [], ◌∷◌, Option, none, some,
}
use llms_chaos.Prelude.Int.{pos}
use llms_chaos.Prelude.Dict.{lookup, insert}
use llms_chaos.Errors.{failed, err}
use llms_chaos.Breaker.{fresh, allow, record_result}
use llms_chaos.Breaker.Registry.{new_registry, for_id, allow_for, record_for}
use llms_chaos.Hedge.Budget.{new_budget, value}
use llms_chaos.Hedge.Race
use llms_chaos.Middleware.{new_metrics, retry}
use llms_chaos.Proxy.{Forwarder, ChatRequest, with_max_tokens, hedge_budget}
use llms_chaos.Proxy.Attempt.{
  acquire, give_back, begin_primary, end_dial, race_step, begins, dials, takes, of_primary,
}
use llms_chaos.Proxy.Serve.{
  Request, Event, receive, choose, choose_primary, after_race, chooses, on_race, settles, step,
}
use llms_chaos.Proxy.Serve.Advance.{is_answered}
use llms_chaos.Proxy.Serve.Replies.{request_run, moves_of, handler_terminates, unanswered_silent}
use llms_chaos.Proxy.Serve.Retry.{retry_avoids_failed}
use llms_chaos.Router.Membership.{IsValid}
use llms_chaos.Router
use llms_chaos.Router.{
  Worker, Pool, new_pool, pick, pick_except, pick_for_key, ready, ready_of, others,
}

abbrev lonely_worker : Worker
lonely_worker = record {
  id = "a";
  host = "h";
  port = pos 9001;
  state = "ready";
  model = "sim";
  inflight = 0;
  ewma_ms = 0;
}

abbrev lonely_pool : Pool
lonely_pool = record { workers = ("a", lonely_worker) ∷ []; affinity = [] }

abbrev with_pool : Pool → Forwarder
with_pool p = record {
  pool = p;
  breakers = new_registry (pos 3) (pos 5_000_000_000);
  metrics = new_metrics;
  header_timeout = pos 2_000_000_000;
  hedge = some (new_budget (pos 2_000_000_000));
  limiter = none;
}

abbrev asked : ChatRequest
asked = record { model = "sim"; messages = []; max_tokens = pos 8; stream = true }

-- The worker fails, and is gone from the pool at the second attempt.
abbrev worker_lost : List (Forwarder × Event)
worker_lost =
    (with_pool lonely_pool, chooses 0 0 0 0 1)
    ∷ (with_pool lonely_pool, on_race (begins of_primary 0 0 2))
    ∷ (with_pool lonely_pool, on_race (dials of_primary (err failed)))
    ∷ (with_pool lonely_pool, on_race (takes of_primary))
    ∷ (with_pool lonely_pool, settles false 3)
    ∷ (with_pool new_pool, chooses 0 0 0 0 4)
    ∷ []

abbrev or_new : Option Request → Request
or_new none = receive none ""
or_new (some r) = r

abbrev unserved : Request
unserved = or_new (request_run (receive (some asked) "") worker_lost)

worker_lost_runs : request_run (receive (some asked) "") worker_lost ≡ some unserved
unfolding request_run step receive choose choose_primary after_race new_registry new_budget
    new_metrics new_pool lookup insert pick pick_except others pick_for_key Router.choose ready
    ready_of allow_for for_id fresh allow hedge_budget value Race.start Race.step race_step
    begin_primary acquire give_back end_dial record_for record_result with_max_tokens retry
worker_lost_runs = refl

handler_terminates_example : moves_of worker_lost ≤ 6
handler_terminates_example =
    handler_terminates (some asked) "" unserved worker_lost worker_lost_runs

unserved_unanswered : is_answered unserved.phase ≡ false
unfolding request_run step receive choose choose_primary after_race new_registry new_budget
    new_metrics new_pool lookup insert pick pick_except others pick_for_key Router.choose ready
    ready_of allow_for for_id fresh allow hedge_budget value Race.start Race.step race_step
    begin_primary acquire give_back end_dial record_for record_result with_max_tokens retry
unserved_unanswered = refl

unanswered_silent_example : unserved.written ≡ []
unanswered_silent_example =
    unanswered_silent (some asked) "" unserved worker_lost worker_lost_runs unserved_unanswered

-- The second attempt of a request whose first one went to worker b.
abbrev again : Request
again = record (receive (some asked) "") { attempt = 1; prev_id = "b" }

lonely_pool-IsValid : IsValid lonely_pool
unfolding lookup
lonely_pool-IsValid = record { keys = (refl, tt); ids = (refl, tt) }

retry_avoids_failed_example :
    (w : Worker) × ((choose_primary (with_pool lonely_pool) again 4 5 6 7).1 ≡ some w)
    × (lookup w.id lonely_pool.workers ≡ some w)
    × (w.state ≡ "ready")
    × (w.id ≢ "b")
retry_avoids_failed_example =
    retry_avoids_failed (with_pool lonely_pool) again 4 5 6 7 "a" lonely_worker (ground arith)
      (ground (arith, eq_iff "b" "")) lonely_pool-IsValid (unfold lookup in refl) refl
      (ground (arith, eq_iff "a" "b"))
