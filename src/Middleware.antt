-- ===== src/Middleware.antt =====
-- `Metrics` of gateway/internal/middleware/middleware.go and render.go. The counters are uint64 and
-- wrap; a sample of the time to the first token, a float64 of seconds in the code, is held as the
-- natural number of nanoseconds that it was made from. The place `int(float64(n) * 0.99)` is written
-- `n * 99 / 100`, which it equals for every n up to 4096.
pub mod Render
mod Tests
use llms_chaos.Prelude.{
  ℕ, ◌+◌, ◌-◌, ◌*◌, ◌/◌, ◌%◌, ◌^◌, Bool, true, false, List, [], ◌∷◌, ◌++◌, Option, none, some,
  String, ltb, if◌then◌else◌, length, drop, get_elem?,
}
use llms_chaos.Prelude.Int.{ℤ, pos, ◌+ℤ◌, to_int64}
use llms_chaos.Prelude.Sort.{sort}

pub record Metrics : Type 0 where
  pub requests : ℕ
  pub failures : ℕ
  pub retries : ℕ
  pub rejected : ℕ
  pub inflight : ℤ
  pub ttft_samples : List ℕ

unfoldable pub new_metrics : Metrics
new_metrics = record {
  requests = 0;
  failures = 0;
  retries = 0;
  rejected = 0;
  inflight = pos 0;
  ttft_samples = [];
}

-- `Add(1)` on an atomic uint64.
abbrev pub add_one : ℕ → ℕ
add_one n = (n + 1) % 2 ^ 64

unfoldable pub end_request : Metrics → Bool → Metrics
end_request m ok =
    let m' = record m { requests = add_one m.requests } in
    if ok then m' else record m' { failures = add_one m'.failures }

unfoldable pub retry : Metrics → Metrics
retry m = record m { retries = add_one m.retries }

unfoldable pub reject : Metrics → Metrics
reject m = record m { rejected = add_one m.rejected }

-- `Add(d)` on an atomic int64; nothing calls it.
unfoldable pub inflight_delta : Metrics → ℤ → Metrics
inflight_delta m d = record m { inflight = to_int64 (m.inflight +ℤ d) }

unfoldable pub observe_ttft : Metrics → ℕ → Metrics
observe_ttft m s =
    let samples = m.ttft_samples ++ s ∷ [] in
    record m { ttft_samples = if ltb 4096 (length samples) then drop 2048 samples else samples }

-- A line of the text that `Render` writes: a name and the number behind it.
pub data Line : Type 0 where
  count : String → ℕ → Line
  level : String → ℤ → Line
  seconds : String → ℕ → Line

-- `samples[i]`; `none` is the panic of an index that is out of range.
abbrev pub quantiles : List ℕ → Option (List Line)
quantiles samples = elim (get_elem? samples (length samples / 2)) [
  | none ↦ none
  | some p50 ↦ elim (get_elem? samples (length samples * 99 / 100)) [
    | none ↦ none
    | some p99 ↦
        some (seconds "gateway_ttft_seconds_p50" p50 ∷ seconds "gateway_ttft_seconds_p99" p99 ∷ [])
  ]
]

abbrev pub counters : Metrics → ℤ → ℤ → List Line
counters m pool_ready version =
    count "gateway_requests_total" m.requests
    ∷ count "gateway_failures_total" m.failures
    ∷ count "gateway_retries_total" m.retries
    ∷ count "gateway_rejected_total" m.rejected
    ∷ level "gateway_inflight" m.inflight
    ∷ level "gateway_workers_ready" pool_ready
    ∷ level "cluster_state_version" version
    ∷ []

unfoldable pub render : Metrics → ℤ → ℤ → Option (List Line)
render m pool_ready version =
    if ltb 0 (length m.ttft_samples)
    then elim (quantiles (sort m.ttft_samples)) [
      | none ↦ none
      | some lines ↦ some (counters m pool_ready version ++ lines)
    ]
    else some (counters m pool_ready version)
