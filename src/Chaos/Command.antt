-- ===== src/Chaos/Command.antt =====
-- The commands of chaosd/cmd/chaos/main.go.
pub mod Orderly
mod Tests
use llms_chaos.Prelude.{String, ◌=ₛ◌, ◌++ₛ◌, List, [], ltb, length, if◌then◌else◌}
use llms_chaos.Prelude.Int.{pos}
use llms_chaos.Prelude.Decimal.{show_ℤ}
use llms_chaos.Chaos.World.{seconds}
use llms_chaos.Chaos.Toxiproxy
use llms_chaos.Chaos.Faults
use llms_chaos.Chaos.Faults.{Fault, new_store}
use llms_chaos.Chaos.Experiment
use llms_chaos.Chaos.Reporter
use llms_chaos.Chaos.Process.{
  bad_time, bad_report, State, Run, M, ◌>>=◌, ◌>>◌, pure, println, usage_exit, value_or_fatal,
  on_store, arg, require_arg, optional,
}
use llms_chaos.Chaos.Machine.{
  Machine, serve, post_worker, atoi, fatal_store, fault_or_fatal, load_or_fatal, print_events, play,
}

module _ (m : Machine) (args : List String) where
  unfoldable pub injection_command : M Fault → M (Unit {0})
  injection_command inject = do f ← inject; println (f.id ++ₛ " " ++ₛ f.detail)

  unfoldable pub init_command : M (Unit {0})
  init_command = do fatal_store m (Faults.ensure_proxies m.env); println "proxies ready"

  unfoldable pub kill_command : M (Unit {0})
  kill_command = do
    require_arg args 3
    target ← arg args 2
    injection_command (fault_or_fatal m (Faults.kill m.env target))

  unfoldable pub latency_command : M (Unit {0})
  latency_command = do
    require_arg args 4
    ms ← (arg args 3 >>= atoi m)
    jitter ← optional args 4 (pos 0) (atoi m)
    target ← arg args 2
    injection_command (fault_or_fatal m (Faults.latency m.env target ms jitter))

  unfoldable pub partition_command : M (Unit {0})
  partition_command = do
    require_arg args 3
    target ← arg args 2
    injection_command (fault_or_fatal m (Faults.partition m.env target))

  unfoldable pub heal_command : M (Unit {0})
  heal_command = do
    require_arg args 3
    target ← arg args 2
    fatal_store m (Faults.heal m.env target)
    println ("healed " ++ₛ target)

  unfoldable pub memory_command : M (Unit {0})
  memory_command = do
    require_arg args 4
    mb ← (arg args 3 >>= atoi m)
    target ← arg args 2
    fatal_store m (post_worker m target "/debug/stress" mb)
    println ("stress " ++ₛ target ++ₛ " " ++ₛ show_ℤ mb)

  -- The error of the post is dropped.
  unfoldable pub oom_command : M (Unit {0})
  oom_command = do
    require_arg args 3
    target ← arg args 2
    dropped ← on_store (post_worker m target "/debug/stress" (pos 8192))
    f ← fault_or_fatal m (Faults.kill m.env target)
    println (f.id ++ₛ " oom simulated")

  unfoldable pub slow_model_command : M (Unit {0})
  slow_model_command = do
    require_arg args 4
    target ← arg args 2
    ms ← arg args 3
    println ("slow-model " ++ₛ target ++ₛ " " ++ₛ ms ++ₛ " set SIM_TOKEN_MS on next restart")

  unfoldable pub reset_command : M (Unit {0})
  reset_command = do fatal_store m (Faults.reset m.env); println "reset"

  unfoldable pub schedule_command : M (Unit {0})
  schedule_command = do
    require_arg args 4
    verb ← arg args 2
    if verb =ₛ "run" then pure tt else usage_exit
    path ← arg args 3
    d ← load_or_fatal m path
    println ("running " ++ₛ d.name ++ₛ " - " ++ₛ d.hypothesis)
    fatal_store m (λ s. Experiment.run m.env s d)
    println "experiment complete, faults rolled back"

  -- The server stops when it cannot listen any more, and its error is dropped.
  unfoldable pub serve_command : M (Unit {0})
  serve_command = do replies ← on_store (serve m m.requests); pure tt

  unfoldable pub gameday_command : M (Unit {0})
  gameday_command = do
    seed ← optional args 2 m.unix_nano (atoi m)
    rounds ← optional args 3 (pos 6) (atoi m)
    cooldown ← optional args 4 (pos 10) (atoi m)
    events ← play m (record {
      workers = [];
      kinds = [];
      seed = seed;
      rounds = rounds;
      cooldown = seconds cooldown;
      latency_ms = pos 0;
      jitter_ms = pos 0;
    })
    print_events m events

  unfoldable pub report_command : M (Unit {0})
  report_command = do
    require_arg args 4
    from ← arg args 2
    start ← value_or_fatal (bad_time from) (m.parse_time from)
    to ← arg args 3
    stop ← value_or_fatal (bad_time to) (m.parse_time to)
    prom ← optional args 4 "http://localhost:9090" pure
    out ← optional args 5 "reports" pure
    r ← value_or_fatal bad_report (Reporter.generate m.lib m.world prom start stop out)
    println (
        r.path
        ++ₛ " "
        ++ₛ m.lib.duration r.mttd
        ++ₛ " "
        ++ₛ m.lib.duration r.mttr
        ++ₛ " "
        ++ₛ m.lib.plain r.p99_ttft)

  unfoldable pub dispatch : String → M (Unit {0})
  dispatch command =
      if command =ₛ "init"
      then init_command
      else if command =ₛ "kill"
      then kill_command
      else if command =ₛ "latency"
      then latency_command
      else if command =ₛ "partition"
      then partition_command
      else if command =ₛ "heal"
      then heal_command
      else if command =ₛ "memory"
      then memory_command
      else if command =ₛ "oom"
      then oom_command
      else if command =ₛ "slow-model"
      then slow_model_command
      else if command =ₛ "reset"
      then reset_command
      else if command =ₛ "schedule"
      then schedule_command
      else if command =ₛ "serve"
      then serve_command
      else if command =ₛ "gameday"
      then gameday_command
      else if command =ₛ "report"
      then report_command
      else usage_exit

abbrev pub start : Machine → State
start m = record {
  store = new_store (Toxiproxy.new (m.getenv "TOXIPROXY_URL"));
  out = [];
  errors = [];
}

unfoldable pub main : Machine → List String → Run (Unit {0})
main m args =
    (if ltb (length args) 2 then usage_exit else (arg args 1 >>= dispatch m args)) (start m)
