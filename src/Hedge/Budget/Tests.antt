-- ===== src/Hedge/Budget/Tests.antt =====
-- Runs of the budget, and the theorems at concrete samples.
use llms_chaos.Prelude.{ℕ, ◌≤◌, ◌<◌, ◌≡◌, refl, List, [], ◌∷◌, arith}
use llms_chaos.Prelude.Int.{ℤ, pos, negsuc}
use llms_chaos.Prelude.Sort.{sort, count_lt, count_le}
use llms_chaos.Hedge.Seconds.{nearest, scale_up, scale_down, to_float, seconds, to_duration}
use llms_chaos.Hedge.Budget.{Budget, value}
use llms_chaos.Hedge.Budget.Rank.{value_percentile}

abbrev round_trips : List ℤ
round_trips = pos 30 ∷ negsuc 4 ∷ pos 10 ∷ pos 20 ∷ []

abbrev three_samples : Budget
three_samples = record { samples = 30 ∷ 10 ∷ 20 ∷ []; def = pos 5 }

three_samples-value : value three_samples ≡ pos 29
unfolding value sort nearest scale_up scale_down to_float seconds to_duration
three_samples-value = refl

value_percentile_example :
    (v : ℕ) × (value three_samples ≡ pos (to_duration (seconds v)))
    × (count_lt v (30 ∷ 10 ∷ 20 ∷ []) ≤ 2)
    × (2 < count_le v (30 ∷ 10 ∷ 20 ∷ []))
value_percentile_example = value_percentile three_samples (omega arith) (omega arith)
