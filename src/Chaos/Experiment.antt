-- ===== src/Chaos/Experiment.antt =====
-- Experiments: chaosd/internal/experiment/experiment.go. The two limits of a definition, float64s that
-- `Run` never reads, are in millionths. Reading a file and decoding its JSON are parameters.
pub mod Steps
pub mod Rollback
pub mod Recorded
pub mod Panics
use llms_chaos.Prelude.{
  ℕ, ◌+◌, String, ◌=ₛ◌, ◌++ₛ◌, List, [], ◌∷◌, Option, none, some, ◌==◌, if◌then◌else◌,
}
use llms_chaos.Prelude.Int.{ℤ, pos, leb_ℤ}
use llms_chaos.Chaos.World.{
  Env, get, nothing, http, sleep, seconds, Failure, unknown_fault, unreachable, not_ready,
}
use llms_chaos.Chaos.Faults.{Store, Injection, injected, refused, kill, latency, partition, reset}

pub record Step : Type 0 where
  pub fault : String
  pub target : String
  pub latency_ms : ℤ
  pub jitter_ms : ℤ
  pub wait_s : ℤ

pub record Definition : Type 0 where
  pub name : String
  pub hypothesis : String
  pub gateway_url : String
  pub max_p99_ttft : ℤ
  pub max_error_rate : ℤ
  pub steps : List Step

pub data Loaded : Type 0 where
  loaded : Definition → Loaded
  unread undecoded : Loaded

abbrev with_url : Definition → Definition
with_url d = record d {
  gateway_url = if d.gateway_url =ₛ "" then "http://localhost:8000" else d.gateway_url;
}

unfoldable pub load : (String → Option String) → (String → Option Definition) → String → Loaded
load read decode path = elim (read path) [
  | none ↦ unread
  | some raw ↦ elim (decode raw) [ none ↦ undecoded | some d ↦ loaded (with_url d) ]
]

abbrev pub Outcome : Type 0
Outcome = Option Failure × Store

-- An error ends the run.
abbrev pub and_then : Outcome → (Store → Outcome) → Outcome
and_then (some e, s) next = (some e, s)
and_then (none, s) next = next s

abbrev pub without_fault : Injection × Store → Outcome
without_fault (refused e, s) = (some e, s)
without_fault (injected f, s) = (none, s)

module _ (env : Env) where
  unfoldable pub inject : ℕ → Step → Store → Outcome
  inject i step s =
      if step.fault =ₛ "kill"
      then without_fault (kill env step.target s)
      else if step.fault =ₛ "latency"
      then without_fault (latency env step.target step.latency_ms step.jitter_ms s)
      else if step.fault =ₛ "partition"
      then without_fault (partition env step.target s)
      else (some (unknown_fault i step.fault), s)

  abbrev waited : Step → Store → Store
  waited step s =
      let wait = if leb_ℤ step.wait_s (pos 0) then pos 10 else step.wait_s in
      record s { log = sleep (seconds wait) ∷ s.log }

  -- What becomes of the reply to the request for `/readyz`.
  abbrev answered : ℕ → Store → Option ℕ → Outcome
  answered i s none = (some (unreachable i), (reset env s).1)
  answered i s (some status) =
      if status == 200 then (none, s) else (some (not_ready i), (reset env s).1)

  -- The wait behind an injection, the request, and the roll back if that fails.
  unfoldable pub probe : String → ℕ → Step → Store → Outcome
  probe gateway_url i step s =
      let s' = waited step s in
      let a = http get (gateway_url ++ₛ "/readyz") nothing in
      answered i (record s' { log = a ∷ s'.log }) (env.reply s'.log a)

  unfoldable pub run_from : String → ℕ → List Step → Store → Outcome
  run_from gateway_url i [] s = reset env s
  run_from gateway_url i (step ∷ steps) s =
      and_then (and_then (inject i step s) (probe gateway_url i step))
        (run_from gateway_url (i + 1) steps)

  unfoldable pub run : Store → Definition → Outcome
  run s d = run_from d.gateway_url 0 d.steps s
