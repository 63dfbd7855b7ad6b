-- ===== src/Hedge/Seconds.antt =====
-- The float64s of gateway/internal/hedge/hedge.go: `d.Seconds()`, and the conversion of seconds back to a
-- `time.Duration`, with the rounding of each step of their arithmetic to the nearest float64, of two
-- equally near ones to the even one.
pub mod Fuel
mod Tests
use llms_chaos.Prelude.{ℕ, zero, suc, ◌+◌, ◌*◌, ◌/◌, ◌%◌, ◌^◌, ltb, leb, ◌==◌, if◌then◌else◌}

-- A float64 that is not negative, as a fraction.
pub record Float : Type 0 where
  pub num : ℕ
  pub den : ℕ

unfoldable pub nearest : ℕ → ℕ → ℕ
nearest num den =
    let q = num / den in
    let r = num % den in if ltb (2 * r) den then q else if (2 * r) == den then q + q % 2 else q + 1

-- A small fraction is doubled until its whole part has the 53 bits of a float64.
unfoldable pub scale_up : ℕ → ℕ → ℕ → ℕ → Float
scale_up zero num den by = record { num = nearest num den; den = by }
scale_up (suc fuel) num den by =
    let more = scale_up fuel (2 * num) den (2 * by) in
    if ltb num (2 ^ 52 * den) then more else record { num = nearest num den; den = by }

-- A great one is halved until it has no more than those.
unfoldable pub scale_down : ℕ → ℕ → ℕ → ℕ → Float
scale_down zero num den by = record { num = by * nearest num den; den = 1 }
scale_down (suc fuel) num den by =
    let more = scale_down fuel num (2 * den) (2 * by) in
    if leb (2 ^ 53 * den) num then more else record { num = by * nearest num den; den = 1 }

-- The nearest float64. A duration has less than 63 bits, and the fractions that are rounded here are 0
-- or at least 10 ^ -9, so that 82 doublings and 11 halvings are enough.
unfoldable pub to_float : ℕ → ℕ → Float
to_float num den =
    if num == 0
    then record { num = 0; den = 1 }
    else if leb (2 ^ 53 * den) num
    then scale_down 11 num den 1
    else scale_up 82 num den 1

-- `float64(sec) + float64(nsec)/1e9`
unfoldable pub seconds : ℕ → Float
seconds d =
    let part = to_float (d % 1_000_000_000) 1_000_000_000 in
    to_float (d / 1_000_000_000 * part.den + part.num) part.den

-- `time.Duration(v * float64(time.Second))`
unfoldable pub to_duration : Float → ℕ
to_duration v = let p = to_float (v.num * 1_000_000_000) v.den in p.num / p.den
