-- ===== src/Proxy/Attempt/Conserved.antt =====
-- Every step of an attempt moves the limiter's count of a worker by what the attempt takes up or puts
-- down of that worker's slots (proxy.go, lines of `primaryFn`, `secondaryFn` and `cleanup`).
use llms_chaos.Prelude.{
  ℕ, ◌+◌, ◌≤◌, ◌≡◌, refl, ◌∙◌, ap, subst, true, false, String, Option, none, some, arith,
}
use mathlib.Core.Option.{some-injective}
use llms_chaos.Errors.{Result, ok, err}
use llms_chaos.Hedge.Race
use llms_chaos.Hedge.Race.{
  Race, Branch, absent, waiting, running, sent, taken, Main, Reaper, resting, awaits_primary,
  awaits_secondary, primary_moves, secondary_moves, primary_returns, secondary_returns,
  takes_primary, takes_secondary, timer_fires, context_ends, reaps, reap,
}
use llms_chaos.Hedge.Race.Sound.{step-cleans}
use llms_chaos.Hedge.Race.Accounts.{of_result, loss, gain, is_reap, step-in_hand}
use llms_chaos.Proxy.{Forwarder}
use llms_chaos.Proxy.Attempt.{
  Attempt, Call, will_dial, will_hedge, dialing, Begun, goes, fails, FirstOutcome, Dialed,
  RaceEvent, Side, of_primary, of_secondary, begins, dials, takes, fires, cleans_up, ends,
  begin_primary, begin_secondary, begin_at, begun, dial_at, end_dial, left_over, clean_up,
  race_step, branch_at, moves, returns, take_event, attach,
}
use llms_chaos.Proxy.Attempt.Slots.{
  call_holds, outcome_holds, branch_holds, attempt_holds, calls_hold, count_of, has_limiter,
  begun_holds, begin_primary-count, begin_secondary-count, end_dial-count, cleanup-count,
}

pub attach-some :
    (f f' : Forwarder) (o : Option Attempt) (s' : Attempt)
    → attach f o ≡ some (f', s')
    → (o ≡ some s') × (f ≡ f')
attach-some f f' none s' h = cc
attach-some f f' (some s) s' h =
    let e = some-injective (f, s) (f', s') h in
    (ap (λ (p : Forwarder × Attempt). some p.1) e, ap (λ (p : Forwarder × Attempt). p.0) e)

-- The forwarder `f` with the attempt `s` has become `f'` with `s'`, for the slots of worker `j`.
pub record Balanced (j : String) (f : Forwarder) (s : Attempt) (f' : Forwarder) (s' : Attempt)
    : Type 0 where
  pub limited : has_limiter f' ≡ true
  pub cleans : s'.cleans ≡ true
  pub balance : count_of j f' + attempt_holds j s ≡ count_of j f + attempt_holds j s'

-- What the events of one side take from a race's branches and add to them.
module _ (j : String) (s : Attempt) where
  moves_no_reap : (side : Side) (c : Call) → is_reap (moves side c) ≡ false
  moves_no_reap of_primary c = refl
  moves_no_reap of_secondary c = refl

  returns_no_reap : (side : Side) (r : Result FirstOutcome) → is_reap (returns side r) ≡ false
  returns_no_reap of_primary r = refl
  returns_no_reap of_secondary r = refl

  take_no_reap : (side : Side) → is_reap (take_event side) ≡ false
  take_no_reap of_primary = refl
  take_no_reap of_secondary = refl

  moves-loss :
      (side : Side) (c : Call)
      → loss (call_holds j) (outcome_holds j) s (moves side c) ≡ branch_holds j (branch_at side s)
  moves-loss of_primary c = refl
  moves-loss of_secondary c = refl

  moves-gain :
      (side : Side) (c : Call)
      → gain (call_holds j) (outcome_holds j) s (moves side c) ≡ call_holds j c
  moves-gain of_primary c = refl
  moves-gain of_secondary c = refl

  returns-loss :
      (side : Side) (r : Result FirstOutcome)
      → loss (call_holds j) (outcome_holds j) s (returns side r) ≡ branch_holds j (branch_at side s)
  returns-loss of_primary r = refl
  returns-loss of_secondary r = refl

  returns-gain :
      (side : Side) (r : Result FirstOutcome)
      → gain (call_holds j) (outcome_holds j) s (returns side r) ≡ of_result (outcome_holds j) r
  returns-gain of_primary r = refl
  returns-gain of_secondary r = refl

  take-loss : (side : Side) → loss (call_holds j) (outcome_holds j) s (take_event side) ≡ 0
  take-loss of_primary = refl
  take-loss of_secondary = refl

  take-gain : (side : Side) → gain (call_holds j) (outcome_holds j) s (take_event side) ≡ 0
  take-gain of_primary = refl
  take-gain of_secondary = refl

  side_below : (side : Side) → branch_holds j (branch_at side s) ≤ calls_hold j s
  side_below of_primary = omega arith
  side_below of_secondary = omega arith

-- What the reaper receives is no longer in hand.
abbrev left_holds : String → Option FirstOutcome → ℕ
left_holds j none = 0
left_holds j (some o) = outcome_holds j o

reap-in_hand :
    (j : String) (m : Reaper) (b c : Branch Call FirstOutcome) (s s' : Attempt)
    → s.primary ≡ b
    → s.secondary ≡ c
    → reap m b c s ≡ some s'
    → attempt_holds j s' + left_holds j (left_over m b c) ≡ attempt_holds j s
reap-in_hand j awaits_primary (sent (ok o)) c s s' eb ec h = ground arith
reap-in_hand j awaits_primary (sent (err e)) c s s' eb ec h = ground arith
reap-in_hand j awaits_secondary b (sent (ok o)) s s' eb ec h = ground arith
reap-in_hand j awaits_secondary b (sent (err e)) s s' eb ec h = ground arith
reap-in_hand j _ _ _ s s' eb ec h = cc

left_below :
    (j : String) (m : Reaper) (b c : Branch Call FirstOutcome)
    → left_holds j (left_over m b c) ≤ branch_holds j b + branch_holds j c
left_below j awaits_primary (sent (ok o)) c = omega arith
left_below j awaits_secondary b (sent (ok o)) = omega arith
left_below j m b c = ground arith

clean_up-count :
    (j : String) (f : Forwarder) (o : Option FirstOutcome)
    → has_limiter f ≡ true
    → left_holds j o ≤ count_of j f
    → (has_limiter (clean_up f o) ≡ true)
      × (count_of j (clean_up f o) + left_holds j o ≡ count_of j f)
clean_up-count j f none has held = ground arith
clean_up-count j f (some o) has held = cleanup-count f o j has held

module _ (j : String) (f f' : Forwarder) (s s' : Attempt) (limited : has_limiter f ≡ true)
    (cleans : s.cleans ≡ true) where
  -- A step of the race, beside a forwarder `f1` that the slots of the step have been moved in.
  attach-Balanced :
      (e : Race.Event Call FirstOutcome) (f1 : Forwarder)
      → has_limiter f1 ≡ true
      → is_reap e ≡ false
      → count_of j f1 + loss (call_holds j) (outcome_holds j) s e
        ≡ count_of j f + gain (call_holds j) (outcome_holds j) s e
      → attach f1 (Race.step s e) ≡ some (f', s')
      → Balanced j f s f' s'
  attach-Balanced e f1 has no_reap moved h =
      let (went, same) = attach-some f1 f' (Race.step s e) s' h in
      let hand = step-in_hand (call_holds j) (outcome_holds j) s s' e cleans no_reap went in
      record {
        limited = subst (λ g. has_limiter g ≡ true) same has;
        cleans = step-cleans s s' e went ∙ cleans;
        balance =
            subst (λ g. count_of j g + attempt_holds j s ≡ count_of j f + attempt_holds j s') same
              (omega (arith, hand, moved));
      }

  begun-Balanced :
      (side : Side) (f1 : Forwarder) (b : Begun)
      → has_limiter f1 ≡ true
      → count_of j f1 ≡ count_of j f + begun_holds j b
      → branch_holds j (branch_at side s) ≡ 0
      → begun side s (f1, b) ≡ some (f', s')
      → Balanced j f s f' s'
  begun-Balanced side f1 (goes c) has count free h =
      attach-Balanced (moves side c) f1 has (moves_no_reap j s side c)
        (omega (arith, count, free, moves-loss j s side c, moves-gain j s side c)) h
  begun-Balanced side f1 (fails e) has count free h =
      attach-Balanced (returns side (err e)) f1 has (returns_no_reap j s side (err e))
        (omega (arith, count, free, returns-loss j s side (err e), returns-gain j s side (err e))) h

  begin_at-Balanced :
      (side : Side) (b : Branch Call FirstOutcome) (i k now : ℕ)
      → branch_at side s ≡ b
      → begin_at side b f s i k now ≡ some (f', s')
      → Balanced j f s f' s'
  begin_at-Balanced side (running (will_dial id)) i k now at h =
      let (has, count) = begin_primary-count f id j limited in
      begun-Balanced side (begin_primary f id).0 (begin_primary f id).1 has count
        (ap (branch_holds j) at) h
  begin_at-Balanced side (running (will_hedge id)) i k now at h =
      let (has, count) = begin_secondary-count f id j i k now limited in
      begun-Balanced side (begin_secondary f id i k now).0 (begin_secondary f id i k now).1 has
        count (ap (branch_holds j) at) h
  begin_at-Balanced _ _ i k now at h = cc

  dial_at-Balanced :
      (side : Side) (b : Branch Call FirstOutcome) (r : Result Dialed)
      → calls_hold j s ≤ count_of j f
      → branch_at side s ≡ b
      → dial_at side b f s r ≡ some (f', s')
      → Balanced j f s f' s'
  dial_at-Balanced side (running (dialing id)) r held at h =
      let dials = ap (branch_holds j) at in
      let (has, count) =
        end_dial-count f id j r limited (omega (arith, dials, side_below j s side)) in
      let out = (end_dial f id r).1 in
      attach-Balanced (returns side out) (end_dial f id r).0 has (returns_no_reap j s side out)
        (omega (arith, count, dials, returns-loss j s side out, returns-gain j s side out)) h
  dial_at-Balanced _ _ r held at h = cc

  reaps-Balanced :
      calls_hold j s ≤ count_of j f
      → attach (clean_up f (left_over s.reaper s.primary s.secondary)) (Race.step s reaps)
        ≡ some (f', s')
      → Balanced j f s f' s'
  unfolding Race.step
  reaps-Balanced held h =
      let o = left_over s.reaper s.primary s.secondary in
      let (went, same) = attach-some (clean_up f o) f' (Race.step s reaps) s' h in
      let hand = reap-in_hand j s.reaper s.primary s.secondary s s' refl refl went in
      let (has, count) =
        clean_up-count j f o limited
          (omega (arith, held, left_below j s.reaper s.primary s.secondary)) in
      record {
        limited = subst (λ g. has_limiter g ≡ true) same has;
        cleans = step-cleans s s' reaps went ∙ cleans;
        balance =
            subst (λ g. count_of j g + attempt_holds j s ≡ count_of j f + attempt_holds j s') same
              (omega (arith, hand, count));
      }

-- Whatever step an attempt takes, the limiter's count of requests in flight to a worker rises by
-- what the attempt has taken up of that worker's slots and falls by what it has put down, if the
-- slots that its two calls hold are among those that the limiter counts.
pub race_step-Balanced :
    (j : String) (f f' : Forwarder) (s s' : Attempt) (ev : RaceEvent)
    → has_limiter f ≡ true
    → s.cleans ≡ true
    → calls_hold j s ≤ count_of j f
    → race_step f s ev ≡ some (f', s')
    → Balanced j f s f' s'
unfolding race_step
race_step-Balanced j f f' s s' (begins side i k now) l c held h =
    begin_at-Balanced j f f' s s' l c side (branch_at side s) i k now refl h
race_step-Balanced j f f' s s' (dials side r) l c held h =
    dial_at-Balanced j f f' s s' l c side (branch_at side s) r held refl h
race_step-Balanced j f f' s s' (takes side) l c held h =
    attach-Balanced j f f' s s' l c (take_event side) f l (take_no_reap j s side)
      (omega (arith, take-loss j s side, take-gain j s side)) h
race_step-Balanced j f f' s s' fires l c held h =
    attach-Balanced j f f' s s' l c timer_fires f l refl refl h
race_step-Balanced j f f' s s' (ends e) l c held h =
    attach-Balanced j f f' s s' l c (context_ends e) f l refl refl h
race_step-Balanced j f f' s s' cleans_up l c held h = reaps-Balanced j f f' s s' l c held h
