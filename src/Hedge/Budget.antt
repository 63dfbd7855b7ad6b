-- ===== src/Hedge/Budget.antt =====
-- `Budget` of gateway/internal/hedge/hedge.go. A sample, which the code holds as a float64 of
-- seconds, is held here as the natural number of nanoseconds that it was made from; `Value` gives back
-- what the float64 becomes as a duration. Of two durations the longer one never has fewer seconds, so
-- the order of the sort is the same. The place
-- `int(float64(n) * 0.95)` is written `n * 95 / 100`, which it equals for every n up to 4096. The
-- test `idx < 0` can never hold and has no counterpart.
pub mod Window
pub mod Rank
mod Tests
use llms_chaos.Prelude.{
  ℕ, ◌+◌, ◌-◌, ◌*◌, ◌/◌, Bool, List, [], ◌∷◌, ◌++◌, ltb, leb, if◌then◌else◌, length, drop, get_or,
}
use llms_chaos.Prelude.Int.{ℤ, pos, pos_part, leb_ℤ}
use llms_chaos.Hedge.Seconds.{seconds, to_duration}
use llms_chaos.Prelude.Sort.{sort}

pub record Budget : Type 0 where
  pub samples : List ℕ
  pub def : ℤ

-- 800 ms
abbrev pub default_budget : ℤ
default_budget = pos 800_000_000

unfoldable pub new_budget : ℤ → Budget
new_budget def = record { samples = []; def = if leb_ℤ def (pos 0) then default_budget else def }

unfoldable pub observe : Budget → ℤ → Budget
observe b d =
    if leb_ℤ d (pos 0)
    then b
    else (let samples = b.samples ++ pos_part d ∷ [] in
        record b {
          samples =
              if ltb 4096 (length samples) then drop (length samples - 2048) samples else samples;
        })

abbrev pub percentile_index : ℕ → ℕ
percentile_index n = let idx = n * 95 / 100 in if leb n idx then n - 1 else idx

unfoldable pub value : Budget → ℤ
value b =
    if leb (length b.samples) 0
    then b.def
    else (let cp = sort b.samples in
        let v = get_or cp (percentile_index (length cp)) 0 in
        if leb v 0 then b.def else pos (to_duration (seconds v)))

unfoldable pub observe_all : Budget → List ℤ → Budget
observe_all b [] = b
observe_all b (d ∷ ds) = observe_all (observe b d) ds
