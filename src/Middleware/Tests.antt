-- ===== src/Middleware/Tests.antt =====
-- Runs of the metrics, and the theorems at concrete samples.
use llms_chaos.Prelude.{ℕ, ◌≡◌, ◌++◌, refl, [], ◌∷◌, some, arith}
use llms_chaos.Prelude.Int.{pos}
use llms_chaos.Prelude.Sort.{sort}
use llms_chaos.Middleware.{Metrics, seconds, new_metrics, render, counters}
use llms_chaos.Middleware.Render.{HasRank, render_total}

abbrev observed : Metrics
observed = record new_metrics { ttft_samples = 30 ∷ 10 ∷ 20 ∷ [] }

rendered :
    render observed (pos 1) (pos 7)
    ≡ some (
        counters observed (pos 1) (pos 7)
        ++ seconds "gateway_ttft_seconds_p50" 20 ∷ seconds "gateway_ttft_seconds_p99" 30 ∷ [])
unfolding render sort
rendered = refl

render_total_example :
    (p50 p99 : ℕ) × (render observed (pos 1) (pos 7)
      ≡ some (
          counters observed (pos 1) (pos 7)
          ++ seconds "gateway_ttft_seconds_p50" p50 ∷ seconds "gateway_ttft_seconds_p99" p99 ∷ []))
    × HasRank (30 ∷ 10 ∷ 20 ∷ []) 1 p50
    × HasRank (30 ∷ 10 ∷ 20 ∷ []) 2 p99
render_total_example = render_total observed (pos 1) (pos 7) (omega arith)
