-- ===== src/Chaos/Machine/Calls.antt =====
-- The calls of chaosd/cmd/chaos/main.go that reach the other components end a run as it may end.
use llms_chaos.Prelude.{
  ℕ, ◌≡◌, sym, subst, true, false, String, List, [], ◌∷◌, Option, none, some, ◌⊎◌, inl, inr,
}
use llms_chaos.Prelude.Int.{ℤ, pos, leb_ℤ}
use llms_chaos.Prelude.Dict.{lookup}
use llms_chaos.Prelude.Decimal.{parse_int}
use llms_chaos.Chaos.World.{
  Failure, no_request, transport, populate_status, add_toxic_status, toggle_status, unknown_worker,
  unknown_fault, unreachable, not_ready, unknown_kind, Explained,
}
use llms_chaos.Chaos.Faults.{Store, Fault, Injection, injected, refused}
use llms_chaos.Chaos.Faults.Panics.{ExplainedInjection, untested-Explained}
use llms_chaos.Chaos.Experiment.{Definition, Loaded, loaded, unread, undecoded}
use llms_chaos.Chaos.Gameday.{
  Config, Event, Played, Panic, out_of_range, too_large, nil_request, with_defaults, plan, run,
}
use llms_chaos.Chaos.Gameday.Schedule.{InRange, Plans, plan-Plans}
use llms_chaos.Chaos.Gameday.Rounds.{Runs, run-Runs}
use llms_chaos.Chaos.Process.{State, failed, bad_number, bad_file, ◌>>=◌, or_panic, on_store}
use llms_chaos.Chaos.Process.Endings.{
  IsOrderly, Keeps, fail-IsOrderly, value_or_fatal-Keeps, fatal-Keeps,
}
use llms_chaos.Chaos.Machine.{
  Machine, fail_by, fatal_failure, fault_of, definition_of, events_of, atoi, fatal_store,
  fault_or_fatal, posted, post_worker, worker_ports, print_events, play,
}

-- How `main` may panic: at the capacity of a plan that is too great, or at a nil request whose URL does not
-- parse.
abbrev pub MayPanic : Machine → Panic → Type 0
MayPanic m out_of_range = ⊥
MayPanic m (too_large n) = leb_ℤ n m.room ≡ false
MayPanic m (nil_request url) = m.env.parses url ≡ false

module _ (m : Machine) where
  pub fail_by-Keeps {ℓ} :
      (A : Type ℓ) (e : Failure) → Explained m.env (some e) → Keeps (MayPanic m) (fail_by {A = A} e)
  fail_by-Keeps A (no_request url) h s clean = h
  fail_by-Keeps A transport h s clean = fail-IsOrderly (MayPanic m) A (failed transport) s clean
  fail_by-Keeps A (populate_status n) h s clean =
      fail-IsOrderly (MayPanic m) A (failed (populate_status n)) s clean
  fail_by-Keeps A (add_toxic_status n) h s clean =
      fail-IsOrderly (MayPanic m) A (failed (add_toxic_status n)) s clean
  fail_by-Keeps A (toggle_status n) h s clean =
      fail-IsOrderly (MayPanic m) A (failed (toggle_status n)) s clean
  fail_by-Keeps A (unknown_worker w) h s clean =
      fail-IsOrderly (MayPanic m) A (failed (unknown_worker w)) s clean
  fail_by-Keeps A (unknown_fault i k) h s clean =
      fail-IsOrderly (MayPanic m) A (failed (unknown_fault i k)) s clean
  fail_by-Keeps A (unreachable i) h s clean =
      fail-IsOrderly (MayPanic m) A (failed (unreachable i)) s clean
  fail_by-Keeps A (not_ready i) h s clean =
      fail-IsOrderly (MayPanic m) A (failed (not_ready i)) s clean
  fail_by-Keeps A (unknown_kind k) h s clean =
      fail-IsOrderly (MayPanic m) A (failed (unknown_kind k)) s clean

  fault_of-Keeps :
      (r : Injection × Store) → ExplainedInjection m.env r → Keeps (MayPanic m) (fault_of r.0)
  fault_of-Keeps (injected f, s') h s clean = clean
  fault_of-Keeps (refused e, s') h s clean = fail_by-Keeps Fault e h s clean

  pub definition_of-Keeps : (d : Loaded) → Keeps (MayPanic m) (definition_of d)
  definition_of-Keeps (loaded d) s clean = clean
  definition_of-Keeps unread s clean = fail-IsOrderly (MayPanic m) Definition bad_file s clean
  definition_of-Keeps undecoded s clean = fail-IsOrderly (MayPanic m) Definition bad_file s clean

  events_of-Keeps :
      (played : Played) → Explained m.env played.1 → Keeps (MayPanic m) (events_of played)
  events_of-Keeps (done, none, store) h s clean = clean
  events_of-Keeps (done, some e, store) h s clean =
      fail_by-Keeps (List Event) e h (record s { store = store }) clean

  pub atoi-Keeps : (text : String) → Keeps (MayPanic m) (atoi m text)
  unfolding atoi
  atoi-Keeps text = value_or_fatal-Keeps (MayPanic m) (bad_number text) (parse_int text)

  fatal_failure-Keeps :
      (o : Option Failure) → Explained m.env o → Keeps (MayPanic m) (fatal_failure o)
  fatal_failure-Keeps none h s clean = fatal-Keeps (MayPanic m) none s clean
  fatal_failure-Keeps (some e) h s clean = fail_by-Keeps (Unit {0}) e h s clean

  pub fatal_store-Keeps :
      (f : Store → Option Failure × Store)
      → ((s : Store) → Explained m.env (f s).0)
      → Keeps (MayPanic m) (fatal_store m f)
  unfolding on_store
  fatal_store-Keeps f h s clean =
      fatal_failure-Keeps (f s.store).0 (h s.store) (record s { store = (f s.store).1 }) clean

  pub fault_or_fatal-Keeps :
      (f : Store → Injection × Store)
      → ((s : Store) → ExplainedInjection m.env (f s))
      → Keeps (MayPanic m) (fault_or_fatal m f)
  unfolding on_store
  fault_or_fatal-Keeps f h s clean =
      fault_of-Keeps (f s.store) (h s.store) (record s { store = (f s.store).1 }) clean

  posted-Explained :
      (target path : String) (mb : ℤ) (s : Store) (port : Option ℕ)
      → Explained m.env (posted m target path mb s port).0
  posted-Explained target path mb s none = tt
  posted-Explained target path mb s (some port) = untested-Explained m.env (m.env.reply s.log _)

  pub post_worker-Explained :
      (target path : String) (mb : ℤ) (s : Store)
      → Explained m.env (post_worker m target path mb s).0
  unfolding post_worker
  post_worker-Explained target path mb s =
      posted-Explained target path mb s (lookup target worker_ports)

  pub print_events-Keeps : (events : List Event) → Keeps (MayPanic m) (print_events m events)
  print_events-Keeps [] s clean = clean
  print_events-Keeps (e ∷ events) s clean = print_events-Keeps events _ clean

  played-Keeps :
      (cfg : Config) (p : Panic ⊎ List Event) (r : Panic ⊎ Played) (s : State)
      → Plans m.room cfg p
      → Runs m.env s.store p r
      → s.errors ≡ []
      → IsOrderly (MayPanic m) ((or_panic r >>= events_of) s)
  played-Keeps cfg (inl (too_large n)) (inl panic) s h same clean =
      subst (MayPanic m) (sym same) h.1
  played-Keeps cfg (inl out_of_range) (inl panic) s h same clean = absurd h
  played-Keeps cfg (inl (nil_request url)) (inl panic) s h same clean = absurd h
  played-Keeps cfg (inl panic) (inr played) s h ran clean = absurd ran
  played-Keeps cfg (inr events) (inl panic) s h ran clean = absurd ran
  played-Keeps cfg (inr events) (inr played) s h ran clean =
      let (new, rest, d, first, all, n, settled, x) = ran in events_of-Keeps played x s clean

  pub play-Keeps :
      (cfg : Config)
      → InRange m.draw
      → leb_ℤ (pos 6) m.room ≡ true
      → Keeps (MayPanic m) (play m cfg)
  play-Keeps cfg in_range six s clean =
      let c = with_defaults cfg in
      played-Keeps c (plan m.draw m.room c) (run m.env m.draw m.room s.store cfg) s
        (plan-Plans m.draw m.room c in_range six) (run-Runs m.env m.draw m.room s.store cfg) clean
