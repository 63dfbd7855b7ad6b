-- ===== src/Chaos/Experiment/Recorded.antt =====
-- The faults that a run of an experiment records.
use llms_chaos.Prelude.{
  ℕ, ◌+◌, ◌≤◌, ◌≡◌, refl, String, List, [], ◌∷◌, Option, none, some, arith, ◌∙◌, eq_iff, ap, subst,
}
use llms_chaos.Prelude.Dict.{lookup, insert, lookup-insert, lookup-insert_self}
use llms_chaos.Chaos.World.{Env, Log, Failure}
use llms_chaos.Chaos.Toxiproxy
use llms_chaos.Chaos.Faults
use llms_chaos.Chaos.Faults.{Store, Fault, fault_id}
use llms_chaos.Chaos.Faults.Injects.{fault_id-injective}
use llms_chaos.Chaos.Experiment.{Step, Definition, Outcome, and_then, inject, probe, run_from, run}
use llms_chaos.Chaos.Experiment.Steps.{Injected, Probed, inject-Injected, probe-Probed}

-- The store holds, under the identifiers that follow `n`, a fault for each step, in their order.
abbrev pub AllRecorded : ℕ → List Step → Store → Type 0
AllRecorded n [] s = s.seq ≡ n
AllRecorded n (step ∷ steps) s =
    (f : Fault) × (lookup (fault_id (n + 1)) s.faults ≡ some f)
    × (f.kind ≡ step.fault)
    × (f.target ≡ step.target)
    × AllRecorded (n + 1) steps s

abbrev Keeps : Store → Store → Type 0
Keeps s s' = (m : ℕ) → m ≤ s.seq → lookup (fault_id m) s'.faults ≡ lookup (fault_id m) s.faults

-- What a run that returns nil does.
abbrev Completes : List Step → Store → Outcome → Type 0
Completes steps s (none, s') = AllRecorded s.seq steps s' × Keeps s s'
Completes steps s (some e, s') = Unit

same_faults : (s s' : Store) → s'.faults ≡ s.faults → Keeps s s'
same_faults s s' same m le = ap (lookup (fault_id m)) same

kept_step :
    (s s1 : Store) (f : Fault) → s1.faults ≡ insert (fault_id (s.seq + 1)) f s.faults → Keeps s s1
kept_step s s1 f put m le =
    ap (lookup (fault_id m)) put
    ∙ ground (
      arith,
      lookup-insert (fault_id (s.seq + 1)) (fault_id m) f s.faults,
      eq_iff (fault_id (s.seq + 1)) (fault_id m),
      fault_id-injective (s.seq + 1) m,
    )

found_step :
    (s s1 s2 : Store) (f : Fault)
    → s1.faults ≡ insert (fault_id (s.seq + 1)) f s.faults
    → s2.faults ≡ s1.faults
    → lookup (fault_id (s.seq + 1)) s2.faults ≡ some f
found_step s s1 s2 f put same =
    ap (lookup (fault_id (s.seq + 1))) (same ∙ put)
    ∙ lookup-insert_self (fault_id (s.seq + 1)) f s.faults

complete_step :
    (step : Step) (steps : List Step) (s s1 s2 : Store) (o : Outcome)
    → Injected step s (none, s1)
    → Probed s1 (none, s2)
    → Completes steps s2 o
    → Completes (step ∷ steps) s o
complete_step step steps s s1 s2 (some e, s3) h p c = tt
complete_step step steps s s1 s2 (none, s3) (f, put, one, r, kind, target) (same, n, r')
      (all, keeps) =
    let e : s2.seq ≡ s.seq + 1 = n ∙ one in
    (
      (
        f,
        keeps (s.seq + 1) (omega (arith, e)) ∙ found_step s s1 s2 f put same,
        kind,
        target,
        subst (λ k. AllRecorded k steps s3) e all,
      ),
      λ m le.
          keeps m (omega (arith, e)) ∙ ap (lookup (fault_id m)) same ∙ kept_step s s1 f put m le,
    )

after_probe :
    (step : Step) (steps : List Step) (s s1 : Store) (p : Outcome) (rest : Store → Outcome)
    → Injected step s (none, s1)
    → Probed s1 p
    → ((s2 : Store) → Completes steps s2 (rest s2))
    → Completes (step ∷ steps) s (and_then p rest)
after_probe step steps s s1 (some e, s2) rest h p later = tt
after_probe step steps s s1 (none, s2) rest h p later =
    complete_step step steps s s1 s2 (rest s2) h p (later s2)

after_inject :
    (step : Step) (steps : List Step) (s : Store) (o : Outcome) (look rest : Store → Outcome)
    → Injected step s o
    → ((s1 : Store) → Probed s1 (look s1))
    → ((s2 : Store) → Completes steps s2 (rest s2))
    → Completes (step ∷ steps) s (and_then (and_then o look) rest)
after_inject step steps s (some e, s1) look rest h p later = tt
after_inject step steps s (none, s1) look rest h p later =
    after_probe step steps s s1 (look s1) rest h (p s1) later

kept_by_reset :
    (s : Store) (err : Option Failure) (log : Log) → Completes [] s (err, record s { log = log })
kept_by_reset s none log = (refl, λ m le. refl)
kept_by_reset s (some e) log = tt

run_from-Completes :
    (env : Env) (gateway_url : String) (i : ℕ) (steps : List Step) (s : Store)
    → Completes steps s (run_from env gateway_url i steps s)
unfolding run_from Faults.reset
run_from-Completes env gateway_url i [] s =
    kept_by_reset s (Toxiproxy.reset env s.toxi s.log).0 (Toxiproxy.reset env s.toxi s.log).1
run_from-Completes env gateway_url i (step ∷ steps) s =
    after_inject step steps s (inject env i step s) (probe env gateway_url i step)
      (run_from env gateway_url (i + 1) steps) (inject-Injected env i step s)
      (probe-Probed env i gateway_url step) (run_from-Completes env gateway_url (i + 1) steps)

-- An experiment that returns nil has recorded one fault for each of its steps, in their order, with
-- the step's kind and target, and has left every fault that was there before.
pub run-AllRecorded :
    (env : Env) (s s' : Store) (d : Definition)
    → run env s d ≡ (none, s')
    → AllRecorded s.seq d.steps s'
      × ((m : ℕ) → m ≤ s.seq → lookup (fault_id m) s'.faults ≡ lookup (fault_id m) s.faults)
unfolding run
run-AllRecorded env s s' d h =
    subst (Completes d.steps s) h (run_from-Completes env d.gateway_url 0 d.steps s)
