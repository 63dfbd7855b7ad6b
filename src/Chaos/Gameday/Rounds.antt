-- ===== src/Chaos/Gameday/Rounds.antt =====
-- The rounds of a game day, `Run` of chaosd/internal/gameday/gameday.go.
use llms_chaos.Prelude.{
  ℕ, ◌+◌, ◌≡◌, refl, sym, subst, String, ◌=ₛ◌, eq_iff, Bool, true, false, ◌⊎◌, inl, inr, List, [],
  ◌∷◌, ◌++◌, map, Option, none, some, arith, length, if_elim, if◌then◌else◌, ◌∙◌,
}
use mathlib.Core.List.{append_assoc, append-nil}
use llms_chaos.Prelude.Int.{ℤ, pos}
use llms_chaos.Chaos.World.{
  Env, sleep, is_panic, Explained, resets, is_clean, is_refusal, Failure, unknown_kind,
}
use llms_chaos.Chaos.Toxiproxy
use llms_chaos.Chaos.Faults
use llms_chaos.Chaos.Faults.{Store, Injection, injected, refused, kill, latency, partition, heal}
use llms_chaos.Chaos.Faults.Injects.{Injects, kill-Injects, latency-Injects, partition-Injects}
use llms_chaos.Chaos.Faults.Panics.{
  ExplainedInjection, Healed, kill-Explained, latency-Explained, partition-Explained, heal-Healed,
}
use llms_chaos.Chaos.Gameday.{
  Config, Event, Panic, Played, inject, cool_down, after_heal, after_cooling, after_switch,
  run_rounds, plan, with_defaults, run,
}

-- An event without the time at which it was carried out.
abbrev pub planned : Event → Event
planned e = record e { at = pos 0 }

-- The resets that an error adds to those of the rounds.
abbrev pub error_resets : Option Failure → ℕ
error_resets none = 0
error_resets (some (unknown_kind k)) = 0
error_resets (some e) = 1

abbrev pub panics : Option Failure → Bool
panics none = false
panics (some e) = is_panic e

-- So many resets are requested, and the last request is one if that was so before.
abbrev pub Requests : ℕ → Store → Store → Type 0
Requests n s s' =
    (resets s'.log ≡ resets s.log + n) × (is_clean s.log ≡ true → is_clean s'.log ≡ true)

-- The events that were carried out are the first of the plan, and all of it if there is no error. Each
-- has recorded one fault, and has requested one reset if the program does not panic.
abbrev pub CarriedOut : Env → List Event → List Event → Store → Played → Type 0
CarriedOut env events before s (done, err, s') =
    (new rest : List Event) × (done ≡ before ++ new)
    × (map planned new ++ rest ≡ map planned events)
    × (err ≡ none → rest ≡ [])
    × (s'.seq ≡ s.seq + length new)
    × (panics err ≡ false → Requests (length new + error_resets err) s s')
    × Explained env err

refusal_resets :
    (e : Failure) → is_refusal e ≡ true → is_panic e ≡ false → error_resets (some e) ≡ 1
refusal_resets e h p = ground arith

abbrev MayInject : Env → Event → Store → Option (Injection × Store) → Type 0
MayInject env e s none = Unit
MayInject env e s (some r) = Injects e.kind e.worker s r × ExplainedInjection env r

module _ (env : Env) (cfg : Config) where
  of_kind :
      (kind : String) (e : Event) (s : Store) (r : Injection × Store)
      → (e.kind =ₛ kind) ≡ true
      → Injects kind e.worker s r
      → ExplainedInjection env r
      → MayInject env e s (some r)
  of_kind kind e s r same h x =
      (subst (λ k. Injects k e.worker s r) (sym ((eq_iff e.kind kind).0 same)) h, x)

  inject-MayInject : (e : Event) (s : Store) → MayInject env e s (inject env cfg e s)
  unfolding inject
  inject-MayInject e s =
      let P = MayInject env e s in
      let cut = some (partition env e.worker s) in
      let slow = some (latency env e.worker cfg.latency_ms cfg.jitter_ms s) in
      let cut_s = partition-Injects env e.worker s in
      let slow_s = latency-Injects env e.worker s cfg.latency_ms cfg.jitter_ms in
      if_elim P (e.kind =ₛ "kill") (some (kill env e.worker s))
        (if e.kind =ₛ "latency" then slow else if e.kind =ₛ "partition" then cut else none)
        (λ k. of_kind "kill" e s _ k (kill-Injects env e.worker s) (kill-Explained env e.worker s))
        λ _.
          if_elim P (e.kind =ₛ "latency") slow (if e.kind =ₛ "partition" then cut else none)
            (λ k.
              of_kind "latency" e s _ k slow_s
                (latency-Explained env e.worker cfg.latency_ms cfg.jitter_ms s))
            λ _.
              if_elim P (e.kind =ₛ "partition") cut none
                (λ k. of_kind "partition" e s _ k cut_s (partition-Explained env e.worker s))
                (λ _. tt)

  -- The cool down of an event resets the proxies, unless it panics.
  abbrev Cooled : Store → Option Failure × Store → Type 0
  Cooled s (none, s') =
      (s'.seq ≡ s.seq) × (resets s'.log ≡ resets s.log + 1) × (is_clean s'.log ≡ true)
  Cooled s (some e, s') = (s'.seq ≡ s.seq) × (is_panic e ≡ true) × Explained env (some e)

  after_heal-Cooled :
      (s s' : Store) (r : Option Failure × Store)
      → s'.seq ≡ s.seq
      → resets s'.log ≡ resets s.log
      → Healed env s' r
      → Cooled s (after_heal env cfg r)
  unfolding Faults.reset Toxiproxy.reset
  after_heal-Cooled s s' (none, s2) n r h = (h.0 ∙ n, omega (arith, h.1, r), refl)
  after_heal-Cooled s s' (some e, s2) n r h = (h.0 ∙ n, h.1, h.2)

  cool_down-Cooled : (e : Event) (s : Store) → Cooled s (cool_down env cfg e s)
  unfolding cool_down
  cool_down-Cooled e s =
      let s' = record s { log = sleep cfg.cooldown ∷ s.log } in
      after_heal-Cooled s s' (heal env e.worker s') refl refl (heal-Healed env e.worker s')

  stopped :
      (e : Event) (events before : List Event) (s s' : Store) (err : Failure)
      → s'.seq ≡ s.seq
      → Explained env (some err)
      → (is_panic err ≡ false → Requests (0 + error_resets (some err)) s s')
      → CarriedOut env (e ∷ events) before s (before, some err, s')
  stopped e events before s s' err n x settled = (
    [],
    map planned (e ∷ events),
    sym (append-nil before),
    refl,
    cc,
    omega (arith, n),
    settled,
    x,
  )

  one_more :
      (e e' : Event) (events before : List Event) (s s2 : Store) (r : Played)
      → planned e' ≡ planned e
      → s2.seq ≡ s.seq + 1
      → resets s2.log ≡ resets s.log + 1
      → is_clean s2.log ≡ true
      → CarriedOut env events (before ++ e' ∷ []) s2 r
      → CarriedOut env (e ∷ events) before s r
  one_more e e' events before s s2 (done, err, s') same n r clean
        (new, rest, d, m, all, n', settled, x) =
      (
        e' ∷ new,
        rest,
        d ∙ append_assoc before (e' ∷ []) new,
        cc,
        all,
        omega (arith, n, n'),
        λ ordinary. let (r', c) = settled ordinary in (omega (arith, r, r'), λ _. c clean),
        x,
      )

  -- The panic of a cool down comes behind an event that is carried out.
  cooling_panics :
      (e e' : Event) (events before : List Event) (s s2 : Store) (p : Failure)
      → planned e' ≡ planned e
      → s2.seq ≡ s.seq + 1
      → is_panic p ≡ true
      → Explained env (some p)
      → CarriedOut env (e ∷ events) before s (before ++ e' ∷ [], some p, s2)
  cooling_panics e e' events before s s2 p same n panic x =
      (e' ∷ [], map planned events, refl, cc, cc, n, λ ordinary. absurd (ground arith), x)

  after_cooling-CarriedOut :
      (e e' : Event) (events before : List Event) (s s1 : Store) (o : Option Failure × Store)
      (next : Store → Played)
      → planned e' ≡ planned e
      → s1.seq ≡ s.seq + 1
      → resets s1.log ≡ resets s.log
      → Cooled s1 o
      → ((s2 : Store) → CarriedOut env events (before ++ e' ∷ []) s2 (next s2))
      → CarriedOut env (e ∷ events) before s (after_cooling env cfg (before ++ e' ∷ []) o next)
  after_cooling-CarriedOut e e' events before s s1 (none, s2) next same n r c later =
      one_more e e' events before s s2 (next s2) same (omega (arith, n, c.0))
        (omega (arith, r, c.1)) c.2 (later s2)
  after_cooling-CarriedOut e e' events before s s1 (some p, s2) next same n r c later =
      cooling_panics e e' events before s s2 p same (omega (arith, n, c.0)) c.1 c.2

  after_refusal :
      (e : Event) (events before : List Event) (s s1 : Store) (err : Failure)
      → Injects e.kind e.worker s (refused err, s1)
      → Explained env (some err)
      → CarriedOut env
          (e ∷ events)
          before
          s
          (before, some err, if is_panic err then s1 else (Faults.reset env s1).1)
  unfolding Faults.reset Toxiproxy.reset
  after_refusal e events before s s1 err h x =
      if_elim (λ s'. CarriedOut env (e ∷ events) before s (before, some err, s')) (is_panic err) s1
        (Faults.reset env s1).1
        (λ panic. stopped e events before s s1 err h.1 x (λ ordinary. absurd (ground arith)))
        (λ ordinary.
          stopped e events before s (Faults.reset env s1).1 err h.1 x
            (λ _. (omega (arith, h.2, refusal_resets err h.3 ordinary), λ _. refl)))

  after_switch-CarriedOut :
      (e e' : Event) (events before : List Event) (s : Store) (r : Option (Injection × Store))
      (next : Store → Played)
      → planned e' ≡ planned e
      → MayInject env e s r
      → ((s2 : Store) → CarriedOut env events (before ++ e' ∷ []) s2 (next s2))
      → CarriedOut env (e ∷ events) before s (
          after_switch env cfg e before s r
            λ s1. after_cooling env cfg (before ++ e' ∷ []) (cool_down env cfg e s1) next)
  after_switch-CarriedOut e e' events before s none next same h later =
      stopped e events before s s (unknown_kind e.kind) refl tt (λ _. (omega arith, λ c. c))
  after_switch-CarriedOut e e' events before s (some (refused err, s1)) next same h later =
      after_refusal e events before s s1 err h.0 h.1
  after_switch-CarriedOut e e' events before s (some (injected f, s1)) next same h later =
      after_cooling-CarriedOut e e' events before s s1 (cool_down env cfg e s1) next same h.0.1
        h.0.2 (cool_down-Cooled e s1) later

  run_rounds-CarriedOut :
      (events before : List Event) (s : Store)
      → CarriedOut env events before s (run_rounds env cfg events before s)
  unfolding run_rounds
  run_rounds-CarriedOut [] before s = (
    [],
    [],
    sym (append-nil before),
    refl,
    λ _. refl,
    omega arith,
    λ _. (omega arith, λ c. c),
    tt,
  )
  run_rounds-CarriedOut (e ∷ events) before s =
      let e' = record e { at = env.now s.log } in
      after_switch-CarriedOut e e' events before s (inject env cfg e s)
        (run_rounds env cfg events (before ++ e' ∷ [])) refl (inject-MayInject e s)
        (run_rounds-CarriedOut events (before ++ e' ∷ []))

-- The panic of the plan, or what becomes of its events.
abbrev pub Runs : Env → Store → Panic ⊎ List Event → Panic ⊎ Played → Type 0
Runs env s (inl panic) (inl panic') = panic' ≡ panic
Runs env s (inr events) (inr played) = CarriedOut env events [] s played
Runs env s _ _ = ⊥

pub run-Runs :
    (env : Env) (draw : ℤ → ℕ → ℕ → ℕ) (room : ℤ) (s : Store) (cfg : Config)
    → Runs env s (plan draw room (with_defaults cfg)) (run env draw room s cfg)
unfolding run
run-Runs env draw room s cfg = runs (plan draw room (with_defaults cfg))
  where
    runs :
        (p : Panic ⊎ List Event)
        → Runs env s p (elim p [
          | inl panic ↦ inl panic
          | inr events ↦ inr (run_rounds env (with_defaults cfg) events [] s)
        ])
    runs (inl panic) = refl
    runs (inr events) = run_rounds-CarriedOut env (with_defaults cfg) events [] s
