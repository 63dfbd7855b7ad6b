-- ===== src/Hedge/Seconds/Tests.antt =====
-- Durations that come back whole, and one that does not.
use llms_chaos.Prelude.{◌≡◌, refl}
use llms_chaos.Hedge.Seconds.{nearest, scale_up, scale_down, to_float, seconds, to_duration}

comes_back : to_duration (seconds 1_500_000_000) ≡ 1_500_000_000
unfolding nearest scale_up scale_down to_float seconds to_duration
comes_back = refl

one_comes_back : to_duration (seconds 1) ≡ 1
unfolding nearest scale_up scale_down to_float seconds to_duration
one_comes_back = refl

loses_one : to_duration (seconds 127_023_495) ≡ 127_023_494
unfolding nearest scale_up scale_down to_float seconds to_duration
loses_one = refl
