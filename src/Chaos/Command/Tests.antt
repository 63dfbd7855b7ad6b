-- ===== src/Chaos/Command/Tests.antt =====
-- Runs of the command line, and the theorem at one.
use llms_chaos.Prelude.{
  ◌%◌, ◌≡◌, refl, not, true, ◌=ₛ◌, String, List, [], ◌∷◌, false, none, some, arith,
}
use llms_chaos.Prelude.Int.{pos}
use llms_chaos.Chaos.Reporter.{number}
use llms_chaos.Prelude.Decimal.{show, show_ℤ, parse_int}
use llms_chaos.Prelude.Dict.{lookup, insert}
use llms_chaos.Chaos.World.{seconds}
use llms_chaos.Chaos.Toxiproxy
use llms_chaos.Chaos.Faults
use llms_chaos.Chaos.Gameday
use llms_chaos.Chaos.Gameday.{nil_request, too_large}
use llms_chaos.Chaos.Process.{
  Run, returns, exits, panics, arg, require_arg, optional, value_or_fatal, on_store,
}
use llms_chaos.Chaos.Gameday.Schedule.{InRange}
use llms_chaos.Chaos.Process.Endings.{IsOrderly}
use llms_chaos.Chaos.Machine.{Machine, atoi}
use llms_chaos.Chaos.Command.{
  main, dispatch, latency_command, heal_command, gameday_command, injection_command,
}
use llms_chaos.Chaos.Machine.Calls.{MayPanic}
use llms_chaos.Chaos.Command.Orderly.{main-IsOrderly}

-- A machine on which nothing is there: no server, no file and no time that is read.
abbrev bare : Machine
bare = record {
  env = record { parses = λ url. true; reply = λ log a. none; now = λ log. pos 0 };
  requests = [];
  getenv = λ name. "";
  unix_nano = pos 0;
  draw = λ seed call bound. call % bound;
  room = pos 4398046511104;
  parse_time = λ s. none;
  read_file = λ path. none;
  decode = λ raw. none;
  lib = record {
    parse_float = λ s. none;
    of_int = λ n. number n;
    to_int = λ v. pos 0;
    sort = λ samples. samples;
    rfc3339 = λ t. "";
    compact = λ t. "";
    duration = λ d. "";
    fixed4 = λ v. "";
    plain = λ v. "";
  };
  world = record {
    query_range = λ url query start stop step. none;
    make_directory = λ directory. false;
    write_file = λ path lines. false;
  };
}

bare-InRange : InRange bare.draw
bare-InRange seed call bound h = grind arith

main-IsOrderly_example : IsOrderly (MayPanic bare) (main bare ("chaos" ∷ "gameday" ∷ []))
main-IsOrderly_example = main-IsOrderly bare ("chaos" ∷ "gameday" ∷ []) bare-InRange refl

abbrev printed : Run (Unit {0}) → List String
printed (returns a s) = s.out
printed (exits code s) = s.out
printed (panics p) = []

-- A Toxiproxy that answers every request.
abbrev answering : Machine
answering = record bare {
  env = record { parses = λ url. true; reply = λ log a. some 200; now = λ log. pos 0 };
}

latency_prints :
    printed (main answering ("chaos" ∷ "latency" ∷ "worker-1" ∷ "500" ∷ "-3" ∷ []))
    ≡ "flt-1 500ms jitter -3ms" ∷ []
unfolding main dispatch latency_command injection_command arg require_arg optional atoi parse_int
    value_or_fatal on_store Faults.latency Faults.add Faults.fault_id Toxiproxy.add_toxic
    Faults.new_store show show_ℤ
latency_prints = refl

gameday_prints :
    printed (main answering ("chaos" ∷ "gameday" ∷ "7" ∷ "2" ∷ []))
    ≡ "1 latency worker-1" ∷ "2 kill worker-3" ∷ []
unfolding main dispatch gameday_command arg require_arg optional atoi parse_int value_or_fatal
    Gameday.run Gameday.run_rounds Gameday.inject Gameday.cool_down Gameday.plan Gameday.plan_rounds
    Gameday.with_defaults Faults.latency Faults.kill Faults.heal Faults.reset Faults.add
    Toxiproxy.add_toxic Toxiproxy.toggle Toxiproxy.reset seconds show show_ℤ lookup insert
gameday_prints = refl

-- A name of a worker that makes no URL.
abbrev picky : Machine
picky = record bare {
  env = record {
    parses = λ url. not (url =ₛ "http://localhost:8474/proxies/%zz");
    reply = λ log a. some 200;
    now = λ log. pos 0;
  };
}

heal_panics :
    main picky ("chaos" ∷ "heal" ∷ "%zz" ∷ [])
    ≡ panics (nil_request "http://localhost:8474/proxies/%zz")
unfolding main dispatch heal_command arg require_arg on_store Faults.heal Toxiproxy.toggle
    Toxiproxy.new Faults.new_store
heal_panics = refl

gameday_panics :
    main bare ("chaos" ∷ "gameday" ∷ "1" ∷ "9223372036854775807" ∷ [])
    ≡ panics (too_large (pos 9223372036854775807))
unfolding main dispatch gameday_command arg require_arg optional atoi parse_int value_or_fatal
    Gameday.run Gameday.plan Gameday.with_defaults Faults.new_store seconds
gameday_panics = refl
