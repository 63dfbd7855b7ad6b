-- ===== src/Chaos/Experiment/Rollback.antt =====
-- When `Run` of chaosd/internal/experiment/experiment.go resets the proxies.
use llms_chaos.Prelude.{
  ℕ, suc, ◌+◌, ◌-◌, ◌≡◌, Bool, true, false, List, [], ◌∷◌, Option, none, some, arith, length,
  String, ltb, not, ◌&&◌, if◌then◌else◌,
}
use llms_chaos.Chaos.World.{Env, resets, is_clean, Failure, blames_gateway}
use llms_chaos.Chaos.Toxiproxy
use llms_chaos.Chaos.Faults
use llms_chaos.Chaos.Faults.{Store}
use llms_chaos.Chaos.Experiment.{Step, Definition, Outcome, and_then, inject, probe, run_from, run}
use llms_chaos.Chaos.Experiment.Steps.{Injected, Probed, inject-Injected, probe-Probed}

-- Whether a run that leaves so many steps without a fault ends because a fault was not injected.
abbrev pub abandons : Option Failure → ℕ → Bool
abandons none missing = false
abandons (some e) missing = not (blames_gateway e) && ltb 0 missing

-- A run that is not abandoned resets the proxies once, as the last thing it does.
abbrev pub EndsReset : ℕ → Store → Outcome → Type 0
EndsReset steps s (err, s') =
    let abandoned = abandons err (s.seq + steps - s'.seq) in
    (resets s'.log ≡ resets s.log + (if abandoned then 0 else 1))
    × (abandoned ≡ false → is_clean s'.log ≡ true)

after_probe :
    (n : ℕ) (s s1 : Store) (p : Outcome) (rest : Store → Outcome)
    → s1.seq ≡ s.seq + 1
    → resets s1.log ≡ resets s.log
    → Probed s1 p
    → ((s2 : Store) → EndsReset n s2 (rest s2))
    → EndsReset (suc n) s (and_then p rest)
after_probe n s s1 (some e, s2) rest one same p later = ground arith
after_probe n s s1 (none, s2) rest one same p later = ground (arith, later s2)

after_inject :
    (n : ℕ) (step : Step) (s : Store) (o : Outcome) (look rest : Store → Outcome)
    → Injected step s o
    → ((s1 : Store) → Probed s1 (look s1))
    → ((s2 : Store) → EndsReset n s2 (rest s2))
    → EndsReset (suc n) s (and_then (and_then o look) rest)
after_inject n step s (some e, s1) look rest h p later = ground arith
after_inject n step s (none, s1) look rest h p later =
    after_probe n s s1 (look s1) rest h.2 h.3 (p s1) later

module _ (env : Env) where
  run_from-EndsReset :
      (gateway_url : String) (i : ℕ) (steps : List Step) (s : Store)
      → EndsReset (length steps) s (run_from env gateway_url i steps s)
  unfolding run_from Faults.reset Toxiproxy.reset
  run_from-EndsReset gateway_url i [] s = ground arith
  run_from-EndsReset gateway_url i (step ∷ steps) s =
      after_inject (length steps) step s (inject env i step s) (probe env gateway_url i step)
        (run_from env gateway_url (i + 1) steps) (inject-Injected env i step s)
        (probe-Probed env i gateway_url step) (run_from-EndsReset gateway_url (i + 1) steps)

-- An experiment whose steps are all injected, or that ends because the gateway is unreachable or not
-- ready, resets the proxies exactly once and as its last action. One that ends because a fault was
-- refused or is unknown, or in the panic of a client, never resets them.
pub run-EndsReset :
    (env : Env) (s : Store) (d : Definition) → EndsReset (length d.steps) s (run env s d)
unfolding run
run-EndsReset env s d = run_from-EndsReset env d.gateway_url 0 d.steps s
