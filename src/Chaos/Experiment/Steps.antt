-- ===== src/Chaos/Experiment/Steps.antt =====
-- What one step of an experiment does: the injection and the look at the gateway behind it.
use llms_chaos.Prelude.{
  ℕ, ◌+◌, ◌≡◌, refl, String, ◌=ₛ◌, eq_iff, sym, ◌∙◌, true, false, Option, none, some, arith,
  if_elim, if◌then◌else◌, ◌==◌,
}
use llms_chaos.Prelude.Dict.{insert}
use llms_chaos.Chaos.World.{
  Env, resets, is_clean, Failure, unknown_fault, not_ready, is_refusal, blames_gateway,
}
use llms_chaos.Chaos.Toxiproxy
use llms_chaos.Chaos.Faults
use llms_chaos.Chaos.Faults.{
  Store, Fault, Injection, injected, refused, fault_id, kill, latency, partition,
}
use llms_chaos.Chaos.Faults.Injects.{Injects, kill-Injects, latency-Injects, partition-Injects}
use llms_chaos.Chaos.Experiment.{Step, Outcome, without_fault, inject, answered, probe}

-- A step that is not injected ends the run and leaves the faults and the proxies.
abbrev pub Injected : Step → Store → Outcome → Type 0
Injected step s (none, s') =
    (f : Fault) × (s'.faults ≡ insert (fault_id (s.seq + 1)) f s.faults)
    × (s'.seq ≡ s.seq + 1)
    × (resets s'.log ≡ resets s.log)
    × (f.kind ≡ step.fault)
    × (f.target ≡ step.target)
Injected step s (some e, s') =
    (s'.seq ≡ s.seq) × (resets s'.log ≡ resets s.log) × (blames_gateway e ≡ false)

refusal_blames : (e : Failure) → is_refusal e ≡ true → blames_gateway e ≡ false
refusal_blames e h = ground arith

without_fault-Injected :
    (kind : String) (step : Step) (s : Store) (r : Injection × Store)
    → (step.fault =ₛ kind) ≡ true
    → Injects kind step.target s r
    → Injected step s (without_fault r)
without_fault-Injected kind step s (refused e, s') same h = (h.1, h.2, refusal_blames e h.3)
without_fault-Injected kind step s (injected f, s') same h =
    (f, h.0, h.1, h.2, h.4 ∙ sym ((eq_iff step.fault kind).0 same), h.5)

module _ (env : Env) where
  pub inject-Injected : (i : ℕ) (step : Step) (s : Store) → Injected step s (inject env i step s)
  unfolding inject
  inject-Injected i step s =
      let P = Injected step s in
      let cut = without_fault (partition env step.target s) in
      let slow = without_fault (latency env step.target step.latency_ms step.jitter_ms s) in
      let fail : Outcome = (some (unknown_fault i step.fault), s) in
      let fault = step.fault in
      let kill_s = kill-Injects env step.target s in
      let slow_s = latency-Injects env step.target s step.latency_ms step.jitter_ms in
      let cut_s = partition-Injects env step.target s in
      if_elim P (fault =ₛ "kill") (without_fault (kill env step.target s))
        (if fault =ₛ "latency" then slow else if fault =ₛ "partition" then cut else fail)
        (λ k. without_fault-Injected "kill" step s _ k kill_s)
        λ _.
          if_elim P (fault =ₛ "latency") slow (if fault =ₛ "partition" then cut else fail)
            (λ k. without_fault-Injected "latency" step s _ k slow_s)
            λ _.
              if_elim P (fault =ₛ "partition") cut fail
                (λ k. without_fault-Injected "partition" step s _ k cut_s) (λ _. (refl, refl, refl))

-- A gateway that does not answer with 200 has the proxies reset.
abbrev pub Probed : Store → Outcome → Type 0
Probed s (none, s') = (s'.faults ≡ s.faults) × (s'.seq ≡ s.seq) × (resets s'.log ≡ resets s.log)
Probed s (some e, s') =
    (blames_gateway e ≡ true)
    × (s'.seq ≡ s.seq)
    × (resets s'.log ≡ resets s.log + 1)
    × (is_clean s'.log ≡ true)

module _ (env : Env) (i : ℕ) where
  answered-Probed :
      (s s' : Store) (reply : Option ℕ)
      → s'.faults ≡ s.faults
      → s'.seq ≡ s.seq
      → resets s'.log ≡ resets s.log
      → Probed s (answered env i s' reply)
  unfolding Faults.reset Toxiproxy.reset
  answered-Probed s s' none f n r = (refl, n, omega (arith, r), refl)
  answered-Probed s s' (some status) f n r =
      if_elim (Probed s) (status == 200) (none, s') (some (not_ready i), (Faults.reset env s').1)
        (λ _. (f, n, r)) (λ _. (refl, n, omega (arith, r), refl))

  pub probe-Probed :
      (gateway_url : String) (step : Step) (s : Store) → Probed s (probe env gateway_url i step s)
  unfolding probe
  probe-Probed gateway_url step s = answered-Probed s _ (env.reply _ _) refl refl refl
