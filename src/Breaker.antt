-- ===== src/Breaker.antt =====
-- gateway/internal/breaker/breaker.go. The instants that the clock gives are arguments, in
-- nanoseconds; each method runs under the breaker's lock, so it is one step.
pub mod History
pub mod Registry
mod Tests
use llms_chaos.Prelude.{ℕ, suc, Bool, true, false, not, ◌&&◌, ◌||◌, List, [], ◌∷◌, if◌then◌else◌}
use llms_chaos.Prelude.Int.{ℤ, pos, leb_ℤ, sub_ℕ}

-- `opened` is the source's `Open`.
pub data State : Type 0 where
  closed opened half_open : State

pub record Breaker : Type 0 where
  pub state : State
  pub failures : ℕ
  pub threshold : ℤ
  pub cooldown : ℤ
  pub opened_at : ℕ

-- The literal in `For`; the other fields have their zero values.
unfoldable pub fresh : ℤ → ℤ → Breaker
fresh threshold cooldown = record {
  state = closed;
  failures = 0;
  threshold = threshold;
  cooldown = cooldown;
  opened_at = 0;
}

abbrev pub is_opened : State → Bool
is_opened opened = true
is_opened _ = false

abbrev pub is_half_open : State → Bool
is_half_open half_open = true
is_half_open _ = false

-- `time.Since(b.openedAt) >= b.cooldown`
abbrev pub has_cooled : Breaker → ℕ → Bool
has_cooled b now = leb_ℤ b.cooldown (sub_ℕ now b.opened_at)

unfoldable pub allow : Breaker → ℕ → Breaker × Bool
allow b now =
    let b' = if is_opened b.state && has_cooled b now then record b { state = half_open } else b in
    (b', not (is_opened b'.state))

unfoldable pub record_result : Breaker → Bool → ℕ → Breaker
record_result b ok now =
    if ok
    then record b { failures = 0; state = closed }
    else (let b' = record b { failures = suc b.failures } in
        if is_half_open b'.state || leb_ℤ b'.threshold (pos b'.failures)
        then record b' { state = opened; opened_at = now }
        else b')

-- A call of a breaker's method, with the instant at which it runs.
pub data Call : Type 0 where
  allows : ℕ → Call
  records : Bool → ℕ → Call

unfoldable pub step : Breaker → Call → Breaker
unfolding allow record_result
step b (allows now) = (allow b now).0
step b (records ok now) = record_result b ok now

unfoldable pub run : Breaker → List Call → Breaker
run b [] = b
run b (c ∷ cs) = run (step b c) cs
