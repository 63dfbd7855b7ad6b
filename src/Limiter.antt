-- ===== src/Limiter.antt =====
-- gateway/internal/limiter/limiter.go. Each method runs under the limiter's lock, so it is one step.
-- The limits and counts are Go `int`s that are never negative: `New` raises the limits to at least 1,
-- and the counts move by one under a test.
pub mod Slots
pub mod Bounds
pub mod Recovery
mod Tests
use llms_chaos.Prelude.{
  ℕ, suc, ◌+◌, ◌-◌, ◌/◌, ◌≤◌, Bool, true, false, ◌&&◌, String, List, [], ◌∷◌, Option, none, some,
  ltb, leb, if◌then◌else◌,
}
use llms_chaos.Prelude.Int.{ℤ, pos, pos_part, ltb_ℤ}
use llms_chaos.Prelude.Dict.{Dict, lookup, insert}

pub record Limiter : Type 0 where
  pub caps : Dict ℕ
  pub inflight : Dict ℕ
  pub initial : ℕ
  pub min : ℕ
  pub max : ℕ

-- What `New` makes of its arguments: the initial, the least and the greatest limit.
pub record Limits : Type 0 where
  pub initial : ℤ
  pub min : ℤ
  pub max : ℤ

unfoldable pub clamp_limits : ℤ → ℤ → ℤ → Limits
clamp_limits initial min max =
    let min' = if ltb_ℤ min (pos 1) then pos 1 else min in
    let max' = if ltb_ℤ max min' then min' else max in
    let initial' = if ltb_ℤ initial min' then min' else initial in
    let initial'' = if ltb_ℤ max' initial' then max' else initial' in
    record { initial = initial''; min = min'; max = max' }

unfoldable pub new : ℤ → ℤ → ℤ → Limiter
unfolding clamp_limits
new initial min max =
    let limits = clamp_limits initial min max in
    record {
      caps = [];
      inflight = [];
      initial = pos_part limits.initial;
      min = pos_part limits.min;
      max = pos_part limits.max;
    }

-- A missing key of a `map[string]int` reads as 0.
abbrev pub or_zero : Option ℕ → ℕ
or_zero none = 0
or_zero (some n) = n

abbrev pub or_else : Option ℕ → ℕ → ℕ
or_else none d = d
or_else (some n) d = n

-- The first part of `TryAcquire`: a missing limit is written down.
abbrev pub with_cap : Limiter → String → Limiter
with_cap l id = elim (lookup id l.caps) [
  | some _ ↦ l
  | none ↦ record l { caps = insert id l.initial l.caps }
]

unfoldable pub try_acquire : Limiter → String → Limiter × Bool
try_acquire l id =
    let c = or_else (lookup id l.caps) l.initial in
    let l' = with_cap l id in
    let n = or_zero (lookup id l.inflight) in
    if leb c n then (l', false) else (record l' { inflight = insert id (suc n) l.inflight }, true)

unfoldable pub release : Limiter → String → Limiter
release l id = elim (lookup id l.inflight) [
  | none ↦ l
  | some n ↦ if ltb 0 n then record l { inflight = insert id (n - 1) l.inflight } else l
]

unfoldable pub on_success : Limiter → String → Limiter
on_success l id =
    let c = or_else (lookup id l.caps) l.initial in
    record l { caps = insert id (if ltb c l.max then suc c else c) l.caps }

unfoldable pub on_timeout : Limiter → String → Limiter
on_timeout l id =
    let c = or_else (lookup id l.caps) l.initial / 2 in
    record l { caps = insert id (if ltb c l.min then l.min else c) l.caps }

unfoldable pub cap_of : Limiter → String → ℕ
cap_of l id = elim (lookup id l.caps) [ some c ↦ c | none ↦ l.initial ]

unfoldable pub inflight_of : Limiter → String → ℕ
inflight_of l id = or_zero (lookup id l.inflight)

-- A call of one of the four methods that write.
pub data Call : Type 0 where
  acquires releases succeeds times_out : Call

unfoldable pub step : Limiter → String × Call → Limiter
unfolding try_acquire release on_success on_timeout
step l (id, acquires) = (try_acquire l id).0
step l (id, releases) = release l id
step l (id, succeeds) = on_success l id
step l (id, times_out) = on_timeout l id

unfoldable pub run : Limiter → List (String × Call) → Limiter
run l [] = l
run l (c ∷ cs) = run (step l c) cs
