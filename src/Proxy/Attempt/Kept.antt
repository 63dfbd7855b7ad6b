-- ===== src/Proxy/Attempt/Kept.antt =====
-- What every step of an attempt in gateway/internal/proxy/proxy.go keeps: `primaryFn`, `secondaryFn` and
-- `cleanup` change the forwarder by a few kinds of calls alone.
use llms_chaos.Prelude.{
  ℕ, ◌≡◌, subst, Bool, true, false, String, List, Option, none, some, Bool-cases, Option-cases, inl,
  inr,
}
use llms_chaos.Prelude.Optional.{Option_elim}
use llms_chaos.Breaker.Registry.{Registry, allow_for}
use llms_chaos.Errors.{Error, Result, ok, err}
use llms_chaos.Hedge.Budget.{Budget}
use llms_chaos.Hedge.Race
use llms_chaos.Hedge.Race.{
  Branch, running, Main, returned, gave_up, timer_fires, context_ends, reaps,
}
use llms_chaos.Limiter
use llms_chaos.Limiter.{Limiter, try_acquire, release, on_timeout, acquires, releases, times_out}
use llms_chaos.Middleware.{retry, reject}
use llms_chaos.Proxy.{Forwarder, is_timeout}
use llms_chaos.Proxy.Attempt.{
  Attempt, Call, will_dial, will_hedge, dialing, Begun, goes, fails, FirstOutcome, Dialed,
  RaceEvent, Side, begins, dials, takes, fires, cleans_up, ends, acquire, give_back, note_timeout,
  allowed, claim_allowed, begin_primary, begin_secondary, begin_at, begun, dial_at, end_dial,
  cleanup, left_over, clean_up, race_step, branch_at, moves, returns, take_event, attach,
}
use llms_chaos.Proxy.Attempt.Conserved.{attach-some}
use llms_chaos.Proxy.Stream.{Line, Read, stream_from_first_token}
use llms_chaos.Router.{Pool, pick_except}

-- A relation between an older and a newer forwarder that holds of everything the program calls: nothing,
-- two changes in turn, a new pool, breakers or hedge budget, a call of the limiter, and a call of the
-- metrics.
pub record IsKept (R : Forwarder → Forwarder → Type 0) : Type 0 where
  pub stays : (f : Forwarder) → R f f
  pub both : (f g h : Forwarder) → R f g → R g h → R f h
  pub repools : (f : Forwarder) (p : Pool) → R f (record f { pool = p })
  pub breaks : (f : Forwarder) (b : Registry) → R f (record f { breakers = b })
  pub hedges : (f : Forwarder) (b : Option Budget) → R f (record f { hedge = b })
  pub limits :
      (f : Forwarder) (l : Limiter) (c : String × Limiter.Call)
      → f.limiter ≡ some l
      → R f (record f { limiter = some (Limiter.step l c) })
  pub retries : (f : Forwarder) → R f (record f { metrics = retry f.metrics })
  pub rejects : (f : Forwarder) → R f (record f { metrics = reject f.metrics })
  pub counts :
      (f : Forwarder) (stream : Bool) (elapsed : ℕ) (payload : Line) (ctx_err : Option Error)
      (reads : List Read) (e : Error)
      → R f (record f {
        metrics =
            (stream_from_first_token f.metrics stream elapsed payload ctx_err reads e).0.metrics;
      })

module _ {R : Forwarder → Forwarder → Type 0} (k : IsKept R) where
  acquire-Kept : (f : Forwarder) (id : String) → R f (acquire f id).0
  unfolding acquire Limiter.step
  acquire-Kept f id =
      Option_elim (λ (p : Forwarder × Bool). R f p.0) f.limiter (f, true)
        (λ l. (record f { limiter = some (try_acquire l id).0 }, (try_acquire l id).1)) (k.stays f)
        (λ l e. k.limits f l (id, acquires) e)

  pub give_back-Kept : (f : Forwarder) (id : String) → R f (give_back f id)
  unfolding give_back Limiter.step
  give_back-Kept f id =
      Option_elim (R f) f.limiter f (λ l. record f { limiter = some (release l id) }) (k.stays f)
        (λ l e. k.limits f l (id, releases) e)

  pub note_timeout-Kept : (f : Forwarder) (id : String) → R f (note_timeout f id)
  unfolding note_timeout Limiter.step
  note_timeout-Kept f id =
      Option_elim (R f) f.limiter f (λ l. record f { limiter = some (on_timeout l id) }) (k.stays f)
        (λ l e. k.limits f l (id, times_out) e)

  begin_primary-Kept : (f : Forwarder) (id : String) → R f (begin_primary f id).0
  unfolding begin_primary
  begin_primary-Kept f id = acquire-Kept f id

  claim_allowed-Kept :
      (f : Forwarder) (may : Bool) (id : String) → R f (claim_allowed (f, may) id).0
  claim_allowed-Kept f true id = acquire-Kept f id
  claim_allowed-Kept f false id = k.stays f

  pub allowed-Kept : (f : Forwarder) (id : String) (now : ℕ) → R f (allowed f id now).0
  allowed-Kept f id now = k.breaks f (allow_for f.breakers id now).0

  begin_secondary-Kept :
      (f : Forwarder) (id : String) (i j now : ℕ) → R f (begin_secondary f id i j now).0
  unfolding begin_secondary
  begin_secondary-Kept f id i j now = elim (Option-cases (pick_except f.pool id i j)) [
    | inl e ↦ rw (e, begin_secondary) (k.stays f)
    | inr (w, e) ↦
        let (g, may) = allowed f w.id now in
        rw (e, begin_secondary)
          (k.both f g (claim_allowed (g, may) w.id).0 (allowed-Kept f w.id now)
            (claim_allowed-Kept g may w.id))
  ]

  end_dial-Kept : (f : Forwarder) (id : String) (r : Result Dialed) → R f (end_dial f id r).0
  unfolding end_dial
  end_dial-Kept f id (ok d) = k.stays f
  end_dial-Kept f id (err e) =
      let g = give_back f id in
      elim (Bool-cases (is_timeout e)) [
        | inl late ↦
            rw (late, end_dial)
              (k.both f g (note_timeout g id) (give_back-Kept f id) (note_timeout-Kept g id))
        | inr other ↦ rw (other, end_dial) (give_back-Kept f id)
      ]

  clean_up-Kept : (f : Forwarder) (o : Option FirstOutcome) → R f (clean_up f o)
  unfolding cleanup
  clean_up-Kept f none = k.stays f
  clean_up-Kept f (some o) = give_back-Kept f o.worker

  module _ (f f' : Forwarder) (s s' : Attempt) where
    attach-Kept :
        (f1 : Forwarder) (x : Option Attempt) → R f f1 → attach f1 x ≡ some (f', s') → R f f'
    attach-Kept f1 x same h = subst (R f) (attach-some f1 f' x s' h).1 same

    begun-Kept :
        (side : Side) (f1 : Forwarder) (b : Begun)
        → R f f1
        → begun side s (f1, b) ≡ some (f', s')
        → R f f'
    begun-Kept side f1 (goes c) same h = attach-Kept f1 (Race.step s (moves side c)) same h
    begun-Kept side f1 (fails e) same h = attach-Kept f1 (Race.step s (returns side (err e))) same h

    begin_at-Kept :
        (side : Side) (b : Branch Call FirstOutcome) (i j now : ℕ)
        → begin_at side b f s i j now ≡ some (f', s')
        → R f f'
    begin_at-Kept side (running (will_dial id)) i j now h =
        begun-Kept side (begin_primary f id).0 (begin_primary f id).1 (begin_primary-Kept f id) h
    begin_at-Kept side (running (will_hedge id)) i j now h =
        begun-Kept side (begin_secondary f id i j now).0 (begin_secondary f id i j now).1
          (begin_secondary-Kept f id i j now) h
    begin_at-Kept _ _ i j now h = cc

    dial_at-Kept :
        (side : Side) (b : Branch Call FirstOutcome) (r : Result Dialed)
        → dial_at side b f s r ≡ some (f', s')
        → R f f'
    dial_at-Kept side (running (dialing id)) r h =
        attach-Kept (end_dial f id r).0 (Race.step s (returns side (end_dial f id r).1))
          (end_dial-Kept f id r) h
    dial_at-Kept _ _ r h = cc

    pub race_step-Kept : (ev : RaceEvent) → race_step f s ev ≡ some (f', s') → R f f'
    unfolding race_step
    race_step-Kept (begins side i j now) h = begin_at-Kept side (branch_at side s) i j now h
    race_step-Kept (dials side r) h = dial_at-Kept side (branch_at side s) r h
    race_step-Kept (takes side) h = attach-Kept f (Race.step s (take_event side)) (k.stays f) h
    race_step-Kept fires h = attach-Kept f (Race.step s timer_fires) (k.stays f) h
    race_step-Kept (ends e) h = attach-Kept f (Race.step s (context_ends e)) (k.stays f) h
    race_step-Kept cleans_up h =
        attach-Kept (clean_up f (left_over s.reaper s.primary s.secondary)) (Race.step s reaps)
          (clean_up-Kept f (left_over s.reaper s.primary s.secondary)) h
