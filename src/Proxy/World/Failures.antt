-- ===== src/Proxy/World/Failures.antt =====
-- No step of the program counts a failure in the metrics (proxy.go, where `Serve` and
-- `streamFromFirstToken` call the metrics).
use llms_chaos.Prelude.{◌≡◌, refl, ◌∙◌, List, some}
use llms_chaos.Middleware.{retry, reject}
use llms_chaos.Proxy.{Forwarder}
use llms_chaos.Proxy.Attempt.Kept.{IsKept}
use llms_chaos.Proxy.Stream.Headers.{counts_success}
use llms_chaos.Proxy.World.{World, WorldEvent, world_run}
use llms_chaos.Proxy.World.Kept.{world_run-Kept}

-- The count of failures is the same.
abbrev Same : Forwarder → Forwarder → Type 0
Same f f' = f'.metrics.failures ≡ f.metrics.failures

Same-IsKept : IsKept Same
unfolding retry reject
Same-IsKept = record {
  stays = λ f. refl;
  both = λ f g h p q. q ∙ p;
  repools = λ f p. refl;
  breaks = λ f b. refl;
  hedges = λ f b. refl;
  limits = λ f l c e. refl;
  retries = λ f. refl;
  rejects = λ f. refl;
  counts = λ f stream elapsed payload ctx_err reads e.
      (counts_success f.metrics stream elapsed payload ctx_err reads e).1;
}

-- Whatever the requests do, and however they end, the count of failures in the metrics stays what it
-- was.
pub failures_never_counted :
    (w w' : World) (es : List WorldEvent)
    → world_run w es ≡ some w'
    → w'.forwarder.metrics.failures ≡ w.forwarder.metrics.failures
failures_never_counted w w' es h = world_run-Kept Same-IsKept w w' es h
