-- ===== src/Middleware/Render.antt =====
-- What `Render` makes of the samples (render.go), and how many of them are kept (middleware.go).
use llms_chaos.Prelude.{
  ℕ, zero, suc, ◌*◌, ◌/◌, ◌≤◌, ◌<◌, ◌≡◌, refl, List, [], ◌∷◌, ◌++◌, arith, length, get_elem?,
  get_or, some,
}
use mathlib.Core.List.{append_assoc, append-nil}
use llms_chaos.Prelude.Int.{ℤ}
use llms_chaos.Prelude.Window.{IsWindow, empty-IsWindow, push-IsWindow}
use llms_chaos.Prelude.Sort.{sort, count_lt, count_le, rank, length-sort}
use llms_chaos.Middleware.{Metrics, seconds, new_metrics, observe_ttft, render, counters}

get_elem?-inside :
    {A : Type 0} (xs : List A) (i : ℕ) (d : A)
    → i < length xs
    → get_elem? xs i ≡ some (get_or xs i d)
get_elem?-inside [] i d h = absurd (omega arith)
get_elem?-inside (x ∷ xs) zero d h = refl
get_elem?-inside (x ∷ xs) (suc i) d h = get_elem?-inside xs i d (omega arith)

-- A sample with at most `place` samples below it and more than that not above it.
abbrev pub HasRank : List ℕ → ℕ → ℕ → Type 0
HasRank xs place v = (count_lt v xs ≤ place) × (place < count_le v xs)

-- With samples, `Render` writes the counters and behind them a median and a 99th percentile of the
-- samples: at most half, or 99 in 100, of the samples are smaller, and more than that are not greater.
-- It never reads past the end.
pub render_total :
    (m : Metrics) (pool_ready version : ℤ)
    → 0 < length m.ttft_samples
    → (p50 p99 : ℕ) × (render m pool_ready version
        ≡ some (
            counters m pool_ready version
            ++ seconds "gateway_ttft_seconds_p50" p50
              ∷ seconds "gateway_ttft_seconds_p99" p99
              ∷ []))
      × HasRank m.ttft_samples (length m.ttft_samples / 2) p50
      × HasRank m.ttft_samples (length m.ttft_samples * 99 / 100) p99
unfolding render
render_total m pool_ready version h =
    let xs = m.ttft_samples in
    let n = length xs in
    let same = length-sort xs in
    let i = n / 2 in
    let j = n * 99 / 100 in
    let mid = get_elem?-inside (sort xs) i 0 (omega arith) in
    let high = get_elem?-inside (sort xs) j 0 (omega arith) in
    (
      get_or (sort xs) i 0,
      get_or (sort xs) j 0,
      rw same (ground (arith, mid, high)),
      rank xs i 0 (omega arith),
      rank xs j 0 (omega arith),
    )

unfoldable pub observe_all : Metrics → List ℕ → Metrics
observe_all m [] = m
observe_all m (s ∷ ss) = observe_all (observe_ttft m s) ss

observe_ttft-IsWindow :
    (hs : List ℕ) (m : Metrics) (s : ℕ)
    → IsWindow 2049 hs m.ttft_samples
    → IsWindow 2049 (hs ++ s ∷ []) (observe_ttft m s).ttft_samples
unfolding observe_ttft
observe_ttft-IsWindow hs m s w =
    push-IsWindow 2049 2048 hs m.ttft_samples s w (λ long longest. (omega arith, omega arith))

observe_all-IsWindow :
    (hs : List ℕ) (m : Metrics) (ss : List ℕ)
    → IsWindow 2049 hs m.ttft_samples
    → IsWindow 2049 (hs ++ ss) (observe_all m ss).ttft_samples
unfolding observe_all
observe_all-IsWindow hs m [] w = rw (append-nil hs) w
observe_all-IsWindow hs m (s ∷ ss) w =
    rw (← append_assoc hs (s ∷ []) ss)
      (observe_all-IsWindow (hs ++ s ∷ []) (observe_ttft m s) ss (observe_ttft-IsWindow hs m s w))

-- After any observations, the metrics hold the last of them: at most 4096, and all or at least 2049.
pub metrics_keep_latest : (ss : List ℕ) → IsWindow 2049 ss (observe_all new_metrics ss).ttft_samples
unfolding new_metrics
metrics_keep_latest ss = observe_all-IsWindow [] new_metrics ss (empty-IsWindow 2049)
