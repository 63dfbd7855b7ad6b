-- ===== src/Limiter/Tests.antt =====
-- Runs of the limiter, and the theorems at concrete calls.
use llms_chaos.Prelude.{◌≡◌, refl, String, List, [], ◌∷◌}
use llms_chaos.Prelude.Int.{pos}
use llms_chaos.Prelude.Dict.{lookup, insert}
use llms_chaos.Limiter.{Limiter, Call, acquires, releases, succeeds, times_out, new, step, run}
use llms_chaos.Limiter.Slots.{slot, slot_run, run-slot}

abbrev busy_pair : List (String × Call)
busy_pair =
    ("a", acquires)
    ∷ ("b", acquires)
    ∷ ("a", times_out)
    ∷ ("a", succeeds)
    ∷ ("a", acquires)
    ∷ ("b", releases)
    ∷ ("b", releases)
    ∷ []

-- The limiter that the gateway's `main` makes.
abbrev adaptive : Limiter
adaptive = new (pos 32) (pos 1) (pos 256)

busy_pair_runs : slot (run adaptive busy_pair) "a" ≡ record { cap = 17; busy = 2 }
unfolding slot run step new lookup insert
busy_pair_runs = refl

run-slot_example :
    slot (run adaptive busy_pair) "b"
    ≡ slot_run adaptive.min adaptive.max (slot adaptive "b") (acquires ∷ releases ∷ releases ∷ [])
run-slot_example = run-slot adaptive "b" busy_pair
