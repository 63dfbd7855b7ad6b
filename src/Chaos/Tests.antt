-- ===== src/Chaos/Tests.antt =====
-- Runs of the fault store, an experiment and a game day, and the theorems at them.
use llms_chaos.Prelude.{
  ℕ, ◌+◌, ◌≡◌, refl, true, List, [], ◌∷◌, Option, none, some, inr, arith, length, ◌%◌,
}
use llms_chaos.Prelude.Int.{ℤ, pos}
use llms_chaos.Prelude.Dict.{lookup, IsDict}
use llms_chaos.Chaos.World.{Env, Action, get, http}
use llms_chaos.Chaos.Toxiproxy
use llms_chaos.Chaos.Toxiproxy.{Client, populate, add_toxic, toggle}
use llms_chaos.Chaos.Faults
use llms_chaos.Chaos.Faults.{Store, Fault, fault_id, new_store, active}
use llms_chaos.Chaos.Faults.Fresh.{
  Command, kill, heal, reset, remove, removals, perform_all, injections, count, perform,
  active_counts_injections,
}
use llms_chaos.Chaos.Experiment
use llms_chaos.Chaos.Experiment.{Step, Definition}
use llms_chaos.Chaos.Experiment.Rollback.{EndsReset, run-EndsReset}
use llms_chaos.Chaos.Experiment.Recorded.{AllRecorded, run-AllRecorded}
use llms_chaos.Chaos.Gameday
use llms_chaos.Chaos.Gameday.{Config, Event, Played, with_defaults, plan}
use llms_chaos.Chaos.Gameday.Schedule.{InRange, Plans, plan-Plans}

-- Toxiproxy and the gateway answer every request with 200.
abbrev healthy : Env
healthy = record { parses = λ url. true; reply = λ log a. some 200; now = λ log. pos (length log) }

abbrev silent_get : Action → Option ℕ
silent_get (http get url body) = none
silent_get a = some 200

-- The gateway's `/readyz` does not answer.
abbrev gateway_down : Env
gateway_down = record { parses = λ url. true; reply = λ log. silent_get; now = λ log. pos 0 }

abbrev client : Client
client = Toxiproxy.new ""

abbrev commands : List Command
commands =
    kill "worker-1"
    ∷ reset
    ∷ kill "worker-9"
    ∷ heal "worker-1"
    ∷ kill "worker-2"
    ∷ remove "flt-1"
    ∷ remove "flt-7"
    ∷ []

injections_some : injections healthy commands (new_store client) ≡ 2
unfolding injections count perform Faults.kill Faults.heal Faults.reset Toxiproxy.reset
    Toxiproxy.toggle new_store Faults.add lookup
injections_some = refl

active_counts_injections_example :
    IsDict (perform_all healthy commands (new_store client)).faults
    × (active (perform_all healthy commands (new_store client))
          + removals healthy commands (new_store client)
        ≡ injections healthy commands (new_store client))
active_counts_injections_example = active_counts_injections healthy client commands

abbrev cut_one : Definition
cut_one = record {
  name = "worker-crash";
  hypothesis = "the gateway stays ready";
  gateway_url = "http://localhost:8000";
  max_p99_ttft = pos 2000000;
  max_error_rate = pos 10000;
  steps =
      record {
        fault = "kill";
        target = "worker-2";
        latency_ms = pos 0;
        jitter_ms = pos 0;
        wait_s = pos 15;
      }
      ∷ [];
}

run-EndsReset_example :
    EndsReset 1 (new_store client) (Experiment.run gateway_down (new_store client) cut_one)
run-EndsReset_example = run-EndsReset gateway_down (new_store client) cut_one

cut_one_runs :
    Experiment.run healthy (new_store client) cut_one
    ≡ (none, (Experiment.run healthy (new_store client) cut_one).1)
unfolding Experiment.run Experiment.run_from Experiment.inject Experiment.probe Faults.kill
    Faults.reset Faults.add Toxiproxy.reset lookup
cut_one_runs = refl

run-AllRecorded_example :
    AllRecorded
      (new_store client).seq
      cut_one.steps
      (Experiment.run healthy (new_store client) cut_one).1
run-AllRecorded_example =
    (run-AllRecorded healthy (new_store client)
      (Experiment.run healthy (new_store client) cut_one).1 cut_one cut_one_runs).0

-- A source of numbers that repeats itself.
abbrev repeating : ℤ → ℕ → ℕ → ℕ
repeating seed call bound = call % bound

repeating-InRange : InRange repeating
repeating-InRange seed call bound h = grind arith

abbrev config : Config
config = record {
  workers = [];
  kinds = [];
  seed = pos 7;
  rounds = pos 2;
  cooldown = pos 0;
  latency_ms = pos 0;
  jitter_ms = pos 0;
}

abbrev planned_events : List Event
planned_events =
    record { round = 1; worker = "worker-1"; kind = "latency"; at = pos 0 }
    ∷ record { round = 2; worker = "worker-3"; kind = "kill"; at = pos 0 }
    ∷ []

config_planned : plan repeating (pos 100) config ≡ inr planned_events
unfolding plan with_defaults Gameday.plan_rounds
config_planned = refl

plan-Plans_example : Plans (pos 100) config (plan repeating (pos 100) config)
plan-Plans_example = plan-Plans repeating (pos 100) config repeating-InRange refl
