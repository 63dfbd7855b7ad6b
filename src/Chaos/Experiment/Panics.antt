-- ===== src/Chaos/Experiment/Panics.antt =====
-- The panics of an experiment, chaosd/internal/experiment/experiment.go: those of its injections.
use llms_chaos.Prelude.{
  ℕ, ◌+◌, String, ◌=ₛ◌, List, [], ◌∷◌, Option, none, some, ◌==◌, if_elim, if◌then◌else◌,
}
use llms_chaos.Chaos.World.{Env, Explained, not_ready, unknown_fault}
use llms_chaos.Chaos.Faults
use llms_chaos.Chaos.Faults.{Store, Injection, injected, refused, kill, latency, partition}
use llms_chaos.Chaos.Faults.Panics.{
  ExplainedInjection, kill-Explained, latency-Explained, partition-Explained, reset-Explained,
}
use llms_chaos.Chaos.Experiment.{
  Step, Definition, Outcome, and_then, without_fault, inject, answered, probe, run_from, run,
}

module _ (env : Env) where
  abbrev Ends : Outcome → Type 0
  Ends o = Explained env o.0

  without_fault-Explained :
      (r : Injection × Store) → ExplainedInjection env r → Ends (without_fault r)
  without_fault-Explained (injected f, s) h = tt
  without_fault-Explained (refused e, s) h = h

  and_then-Explained :
      (o : Outcome) (next : Store → Outcome)
      → Ends o
      → ((s : Store) → Ends (next s))
      → Ends (and_then o next)
  and_then-Explained (none, s) next h later = later s
  and_then-Explained (some e, s) next h later = h

  inject-Explained : (i : ℕ) (step : Step) (s : Store) → Ends (inject env i step s)
  unfolding inject
  inject-Explained i step s =
      let fault = step.fault in
      let cut = without_fault (partition env step.target s) in
      let slow = without_fault (latency env step.target step.latency_ms step.jitter_ms s) in
      let fail : Outcome = (some (unknown_fault i fault), s) in
      if_elim Ends (fault =ₛ "kill") (without_fault (kill env step.target s))
        (if fault =ₛ "latency" then slow else if fault =ₛ "partition" then cut else fail)
        (λ _. without_fault-Explained (kill env step.target s) (kill-Explained env step.target s))
        λ _.
          if_elim Ends (fault =ₛ "latency") slow (if fault =ₛ "partition" then cut else fail)
            (λ _.
              without_fault-Explained (latency env step.target step.latency_ms step.jitter_ms s)
                (latency-Explained env step.target step.latency_ms step.jitter_ms s))
            λ _.
              if_elim Ends (fault =ₛ "partition") cut fail
                (λ _.
                  without_fault-Explained (partition env step.target s)
                    (partition-Explained env step.target s))
                (λ _. tt)

  answered-Explained : (i : ℕ) (s : Store) (reply : Option ℕ) → Ends (answered env i s reply)
  answered-Explained i s none = tt
  answered-Explained i s (some status) =
      if_elim Ends (status == 200) (none, s) (some (not_ready i), (Faults.reset env s).1) (λ _. tt)
        (λ _. tt)

  probe-Explained :
      (gateway_url : String) (i : ℕ) (step : Step) (s : Store)
      → Ends (probe env gateway_url i step s)
  unfolding probe
  probe-Explained gateway_url i step s = answered-Explained i _ (env.reply _ _)

  run_from-Explained :
      (gateway_url : String) (i : ℕ) (steps : List Step) (s : Store)
      → Ends (run_from env gateway_url i steps s)
  unfolding run_from
  run_from-Explained gateway_url i [] s = reset-Explained env s
  run_from-Explained gateway_url i (step ∷ steps) s =
      and_then-Explained (and_then (inject env i step s) (probe env gateway_url i step)) _
        (and_then-Explained (inject env i step s) (probe env gateway_url i step)
          (inject-Explained i step s) (probe-Explained gateway_url i step))
        (run_from-Explained gateway_url (i + 1) steps)

  pub run-Explained : (s : Store) (d : Definition) → Explained env (run env s d).0
  unfolding run
  run-Explained s d = run_from-Explained d.gateway_url 0 d.steps s
