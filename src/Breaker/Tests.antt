-- ===== src/Breaker/Tests.antt =====
-- Runs of the breaker and its registry, and the theorems at concrete histories.
use llms_chaos.Prelude.{ℕ, ◌≡◌, ◌↔◌, refl, true, false, List, [], ◌∷◌, none, some, arith}
use llms_chaos.Prelude.Int.{pos, ◌≤ℤ◌, ◌<ℤ◌, sub_ℕ}
use llms_chaos.Breaker.{closed, opened, half_open, Call, allows, records, fresh, allow, step, run}
use llms_chaos.Breaker.History.{last_failure, closed_iff_few_failures, refusal_justified}
use llms_chaos.Breaker.Registry.{new_registry, run_all, breaker_of, run_all-breaker_of}

abbrev three_failures : List Call
three_failures =
    records false 10
    ∷ records true 11
    ∷ records false 12
    ∷ records false 13
    ∷ allows 14
    ∷ records false 15
    ∷ []

three_failures_open : (run (fresh (pos 3) (pos 5)) three_failures).state ≡ opened
unfolding run step fresh
three_failures_open = refl

cooled_half_open :
    (run
      (fresh (pos 3) (pos 5))
      (records false 10 ∷ records false 10 ∷ records false 10 ∷ allows 14 ∷ allows 15 ∷ [])).state
    ≡ half_open
unfolding run step fresh
cooled_half_open = refl

closed_iff_few_failures_example :
    let b = run (fresh (pos 3) (pos 5)) three_failures in
    (b.failures ≡ 3) × ((b.state ≡ closed) ↔ (pos 3 <ℤ pos 3))
closed_iff_few_failures_example =
    closed_iff_few_failures (pos 3) (pos 5) (omega arith) three_failures

refused_soon : (allow (run (fresh (pos 3) (pos 5)) three_failures) 19).1 ≡ false
unfolding run step fresh
refused_soon = refl

refusal_justified_example :
    (t : ℕ) × (last_failure none three_failures ≡ some t) × (pos 3 ≤ℤ pos 3) × (sub_ℕ 19 t <ℤ pos 5)
refusal_justified_example =
    refusal_justified (pos 3) (pos 5) (omega arith) three_failures 19 refused_soon

run_all-breaker_of_example :
    breaker_of
      (run_all (new_registry (pos 1) (pos 5)) (("a", records false 1) ∷ ("b", records true 2) ∷ []))
      "a"
    ≡ run (breaker_of (new_registry (pos 1) (pos 5)) "a") (records false 1 ∷ [])
run_all-breaker_of_example =
    run_all-breaker_of (new_registry (pos 1) (pos 5)) "a"
      (("a", records false 1) ∷ ("b", records true 2) ∷ [])
