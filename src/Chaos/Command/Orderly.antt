-- ===== src/Chaos/Command/Orderly.antt =====
-- The commands of chaosd/cmd/chaos/main.go end a run as it may end.
use llms_chaos.Prelude.{
  ◌≡◌, refl, Bool, true, String, ◌=ₛ◌, List, arith, ltb, length, if_elim, if◌then◌else◌,
}
use llms_chaos.Prelude.Int.{pos, leb_ℤ}
use llms_chaos.Chaos.Faults.{Fault}
use llms_chaos.Chaos.Faults.Panics.{
  kill-Explained, latency-Explained, partition-Explained, heal-Explained, reset-Explained,
  ensure_proxies-Explained,
}
use llms_chaos.Chaos.Experiment.Panics.{run-Explained}
use llms_chaos.Chaos.Gameday.{Panic}
use llms_chaos.Chaos.Experiment
use llms_chaos.Chaos.Gameday.Schedule.{InRange}
use llms_chaos.Chaos.Process.{M, ◌>>=◌, pure, usage_exit, arg}
use llms_chaos.Chaos.Process.Endings.{
  IsOrderly, Keeps, >>=-Keeps, value_or_fatal-Keeps, on_store-Keeps, usage_exit-Keeps, require_then,
  arg-Keeps, optional-Keeps,
}
use llms_chaos.Chaos.Machine.{Machine}
use llms_chaos.Chaos.Machine.Calls.{
  MayPanic, post_worker-Explained, definition_of-Keeps, atoi-Keeps, fatal_store-Keeps,
  fault_or_fatal-Keeps, print_events-Keeps, play-Keeps,
}
use llms_chaos.Chaos.Command.{
  injection_command, init_command, kill_command, latency_command, partition_command, heal_command,
  memory_command, oom_command, slow_model_command, reset_command, schedule_command, serve_command,
  gameday_command, report_command, dispatch, start, main,
}

either :
    (May : Panic → Type 0) (x y : M (Unit {0})) (b : Bool)
    → Keeps May x
    → Keeps May y
    → Keeps May (if b then x else y)
either May x y b kx ky = if_elim (Keeps May) b x y (λ _. kx) (λ _. ky)

module _ (m : Machine) (args : List String) where
  injection_command-Keeps :
      (inject : M Fault)
      → Keeps (MayPanic m) inject
      → Keeps (MayPanic m) (injection_command m args inject)
  unfolding injection_command
  injection_command-Keeps inject h = >>=-Keeps (MayPanic m) _ _ h λ f s clean. clean

  init_command-Keeps : Keeps (MayPanic m) (init_command m args)
  unfolding init_command
  init_command-Keeps =
      >>=-Keeps (MayPanic m) _ _ (fatal_store-Keeps m _ (ensure_proxies-Explained m.env))
        λ _ s clean. clean

  kill_command-Keeps : Keeps (MayPanic m) (kill_command m args)
  unfolding kill_command
  kill_command-Keeps = require_then (MayPanic m) args 3 _ λ n.
      >>=-Keeps (MayPanic m) _ _ (arg-Keeps (MayPanic m) args 2 (omega arith))
        λ target. injection_command-Keeps _ (fault_or_fatal-Keeps m _ (kill-Explained m.env target))

  latency_command-Keeps : Keeps (MayPanic m) (latency_command m args)
  unfolding latency_command
  latency_command-Keeps = require_then (MayPanic m) args 4 _ λ n.
      >>=-Keeps (MayPanic m) _ _
        (>>=-Keeps (MayPanic m) _ _ (arg-Keeps (MayPanic m) args 3 (omega arith)) (atoi-Keeps m))
        λ ms.
          >>=-Keeps (MayPanic m) _ _ (optional-Keeps (MayPanic m) args 4 _ _ (atoi-Keeps m))
            λ jitter.
              >>=-Keeps (MayPanic m) _ _ (arg-Keeps (MayPanic m) args 2 (omega arith)) λ target.
                injection_command-Keeps _
                  (fault_or_fatal-Keeps m _ (latency-Explained m.env target ms jitter))

  partition_command-Keeps : Keeps (MayPanic m) (partition_command m args)
  unfolding partition_command
  partition_command-Keeps = require_then (MayPanic m) args 3 _ λ n.
      >>=-Keeps (MayPanic m) _ _ (arg-Keeps (MayPanic m) args 2 (omega arith)) λ target.
        injection_command-Keeps _ (fault_or_fatal-Keeps m _ (partition-Explained m.env target))

  heal_command-Keeps : Keeps (MayPanic m) (heal_command m args)
  unfolding heal_command
  heal_command-Keeps = require_then (MayPanic m) args 3 _ λ n.
      >>=-Keeps (MayPanic m) _ _ (arg-Keeps (MayPanic m) args 2 (omega arith)) λ target.
        >>=-Keeps (MayPanic m) _ _ (fatal_store-Keeps m _ (heal-Explained m.env target))
          λ _ s clean. clean

  memory_command-Keeps : Keeps (MayPanic m) (memory_command m args)
  unfolding memory_command
  memory_command-Keeps = require_then (MayPanic m) args 4 _ λ n.
      >>=-Keeps (MayPanic m) _ _
        (>>=-Keeps (MayPanic m) _ _ (arg-Keeps (MayPanic m) args 3 (omega arith)) (atoi-Keeps m))
        λ mb. >>=-Keeps (MayPanic m) _ _ (arg-Keeps (MayPanic m) args 2 (omega arith)) λ target.
          >>=-Keeps (MayPanic m) _ _
            (fatal_store-Keeps m _ (post_worker-Explained m target "/debug/stress" mb))
            λ _ s clean. clean

  oom_command-Keeps : Keeps (MayPanic m) (oom_command m args)
  unfolding oom_command
  oom_command-Keeps = require_then (MayPanic m) args 3 _ λ n.
      >>=-Keeps (MayPanic m) _ _ (arg-Keeps (MayPanic m) args 2 (omega arith)) λ target.
        >>=-Keeps (MayPanic m) _ _ (on_store-Keeps (MayPanic m) _) λ dropped.
          >>=-Keeps (MayPanic m) _ _ (fault_or_fatal-Keeps m _ (kill-Explained m.env target))
            λ f s clean. clean

  slow_model_command-Keeps : Keeps (MayPanic m) (slow_model_command m args)
  unfolding slow_model_command
  slow_model_command-Keeps = require_then (MayPanic m) args 4 _ λ n.
      >>=-Keeps (MayPanic m) _ _ (arg-Keeps (MayPanic m) args 2 (omega arith)) λ target.
        >>=-Keeps (MayPanic m) _ _ (arg-Keeps (MayPanic m) args 3 (omega arith)) λ ms s clean. clean

  reset_command-Keeps : Keeps (MayPanic m) (reset_command m args)
  unfolding reset_command
  reset_command-Keeps =
      >>=-Keeps (MayPanic m) _ _ (fatal_store-Keeps m _ (reset-Explained m.env)) λ _ s clean. clean

  schedule_command-Keeps : Keeps (MayPanic m) (schedule_command m args)
  unfolding schedule_command
  schedule_command-Keeps = require_then (MayPanic m) args 4 _ λ n.
      >>=-Keeps (MayPanic m) _ _ (arg-Keeps (MayPanic m) args 2 (omega arith)) λ verb.
        >>=-Keeps (MayPanic m) _ _
          (if_elim (Keeps (MayPanic m)) (verb =ₛ "run") (pure tt) usage_exit (λ _ s clean. clean)
            (λ _. (usage_exit-Keeps (MayPanic m))))
          λ _. >>=-Keeps (MayPanic m) _ _ (arg-Keeps (MayPanic m) args 3 (omega arith)) λ path.
            >>=-Keeps (MayPanic m) _ _
              (definition_of-Keeps m (Experiment.load m.read_file m.decode path))
              λ d s clean.
                >>=-Keeps (MayPanic m) _ _ (fatal_store-Keeps m _ (λ s. run-Explained m.env s d))
                  (λ _ s clean. clean) _ clean

  serve_command-Keeps : Keeps (MayPanic m) (serve_command m args)
  unfolding serve_command
  serve_command-Keeps =
      >>=-Keeps (MayPanic m) _ _ (on_store-Keeps (MayPanic m) _) λ replies s clean. clean

  gameday_command-Keeps :
      InRange m.draw → leb_ℤ (pos 6) m.room ≡ true → Keeps (MayPanic m) (gameday_command m args)
  unfolding gameday_command
  gameday_command-Keeps in_range six =
      >>=-Keeps (MayPanic m) _ _ (optional-Keeps (MayPanic m) args 2 _ _ (atoi-Keeps m)) λ seed.
        >>=-Keeps (MayPanic m) _ _ (optional-Keeps (MayPanic m) args 3 _ _ (atoi-Keeps m)) λ rounds.
          >>=-Keeps (MayPanic m) _ _ (optional-Keeps (MayPanic m) args 4 _ _ (atoi-Keeps m))
            λ cooldown.
              >>=-Keeps (MayPanic m) _ _ (play-Keeps m _ in_range six)
                λ events. print_events-Keeps m events

  report_command-Keeps : Keeps (MayPanic m) (report_command m args)
  unfolding report_command
  report_command-Keeps = require_then (MayPanic m) args 4 _ λ n.
      >>=-Keeps (MayPanic m) _ _ (arg-Keeps (MayPanic m) args 2 (omega arith)) λ from.
        >>=-Keeps (MayPanic m) _ _ (value_or_fatal-Keeps (MayPanic m) _ _) λ start.
          >>=-Keeps (MayPanic m) _ _ (arg-Keeps (MayPanic m) args 3 (omega arith)) λ to.
            >>=-Keeps (MayPanic m) _ _ (value_or_fatal-Keeps (MayPanic m) _ _) λ stop.
              >>=-Keeps (MayPanic m) _ _
                (optional-Keeps (MayPanic m) args 4 _ _ (λ text s clean. clean))
                λ prom.
                  >>=-Keeps (MayPanic m) _ _
                    (optional-Keeps (MayPanic m) args 5 _ _ (λ text s clean. clean))
                    λ out.
                      >>=-Keeps (MayPanic m) _ _ (value_or_fatal-Keeps (MayPanic m) _ _)
                        λ r s clean. clean

  dispatch-Keeps :
      (command : String)
      → InRange m.draw
      → leb_ℤ (pos 6) m.room ≡ true
      → Keeps (MayPanic m) (dispatch m args command)
  unfolding dispatch
  dispatch-Keeps command in_range six =
      either (MayPanic m) _ _ (command =ₛ "init") init_command-Keeps (
        either (MayPanic m) _ _ (command =ₛ "kill") kill_command-Keeps (
          either (MayPanic m) _ _ (command =ₛ "latency") latency_command-Keeps (
            either (MayPanic m) _ _ (command =ₛ "partition") partition_command-Keeps (
              either (MayPanic m) _ _ (command =ₛ "heal") heal_command-Keeps (
                either (MayPanic m) _ _ (command =ₛ "memory") memory_command-Keeps (
                  either (MayPanic m) _ _ (command =ₛ "oom") oom_command-Keeps (
                    either (MayPanic m) _ _ (command =ₛ "slow-model") slow_model_command-Keeps (
                      either (MayPanic m) _ _ (command =ₛ "reset") reset_command-Keeps (
                        either (MayPanic m) _ _ (command =ₛ "schedule") schedule_command-Keeps (
                          either (MayPanic m) _ _ (command =ₛ "serve") serve_command-Keeps (
                            either (MayPanic m) _ _ (command =ₛ "gameday")
                              (gameday_command-Keeps in_range six)
                              (either (MayPanic m) _ _ (command =ₛ "report") report_command-Keeps
                                (usage_exit-Keeps (MayPanic m))))))))))))))

-- With numbers of `Intn` below their bounds, and room for six events, no arguments make `main` read out
-- of range. It returns with nothing printed to the standard error, or exits with 1 behind the usage line
-- or behind one error, or it panics: at more rounds of a game day than `make` has room for, or at a nil
-- request whose URL does not parse.
pub main-IsOrderly :
    (m : Machine) (args : List String)
    → InRange m.draw
    → leb_ℤ (pos 6) m.room ≡ true
    → IsOrderly (MayPanic m) (main m args)
unfolding main
main-IsOrderly m args in_range six =
    if_elim (Keeps (MayPanic m)) (ltb (length args) 2) usage_exit (arg args 1 >>= dispatch m args)
      (λ _. (usage_exit-Keeps (MayPanic m)))
      (λ long.
        >>=-Keeps (MayPanic m) (arg args 1) (dispatch m args)
          (arg-Keeps (MayPanic m) args 1 (ground arith))
          (λ command. dispatch-Keeps m args command in_range six))
      (start m) refl
