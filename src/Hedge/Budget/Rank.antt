-- ===== src/Hedge/Budget/Rank.antt =====
-- What a budget answers (hedge.go, `Value`).
use llms_chaos.Prelude.{ℕ, ◌*◌, ◌/◌, ◌≤◌, ◌<◌, ◌≡◌, List, [], ◌∷◌, arith, length, get_or}
use llms_chaos.Prelude.Int.{pos}
use llms_chaos.Prelude.Sort.{sort, count_lt, count_le, rank, length-sort, AllFrom}
use llms_chaos.Hedge.Seconds.{seconds, to_duration}
use llms_chaos.Hedge.Budget.{Budget, percentile_index, value}

pub percentile_index_exact :
    (n : ℕ) → 0 < n → (percentile_index n ≡ n * 95 / 100) × (percentile_index n < n)
percentile_index_exact n h = ground arith

positive_rank : (xs : List ℕ) (v : ℕ) → AllFrom 1 xs → 0 < count_le v xs → 0 < v
positive_rank [] v all h = absurd (omega arith)
positive_rank (x ∷ xs) v all h = ground (arith, positive_rank xs v all.1)

-- With samples that are positive, the budget is a 95th percentile of them, converted to seconds and back
-- in float64s: at most 95 in 100 samples are smaller than that percentile and more than that are not
-- greater. Reading it never runs past the end.
pub value_percentile :
    (b : Budget)
    → 0 < length b.samples
    → AllFrom 1 b.samples
    → (v : ℕ) × (value b ≡ pos (to_duration (seconds v)))
      × (count_lt v b.samples ≤ length b.samples * 95 / 100)
      × (length b.samples * 95 / 100 < count_le v b.samples)
unfolding value
value_percentile b h all =
    let n = length b.samples in
    let i = percentile_index n in
    let v = get_or (sort b.samples) i 0 in
    let (exact, inside) = percentile_index_exact n h in
    let (below, above) = rank b.samples i 0 inside in
    let v_pos = positive_rank b.samples v all (omega arith) in
    (v, rw (length-sort b.samples) (ground arith), omega arith, omega arith)
