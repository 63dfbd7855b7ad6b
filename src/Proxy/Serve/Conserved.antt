-- ===== src/Proxy/Serve/Conserved.antt =====
-- Every step of a request moves the limiter's count of a worker by what the request takes up or puts
-- down of that worker's slots (proxy.go, `Serve`).
use llms_chaos.Prelude.{
  ℕ, ◌+◌, ◌≤◌, ◌≡◌, refl, ap, subst, Bool, true, false, ◌||◌, String, List, ◌++◌, Option, none,
  some, arith, Bool-cases, Option-cases, inl, inr,
}
use mathlib.Core.Option.{some-injective}
use llms_chaos.Errors.{Error, err}
use llms_chaos.Hedge.Race.{Main, returned, gave_up}
use llms_chaos.Hedge.Race.Sound.{is_settled, step-is_settled}
use llms_chaos.Limiter.Slots.{inflight_kept}
use llms_chaos.Proxy.{Forwarder, Outcome, is_timeout?}
use llms_chaos.Proxy.Attempt.{Attempt, FirstOutcome, RaceEvent, give_back, race_step}
use llms_chaos.Proxy.Attempt.Slots.{
  outcome_holds, main_holds, count_of, has_limiter, give_back-count, note_timeout-count,
}
use llms_chaos.Proxy.Attempt.Conserved.{race_step-Balanced}
use llms_chaos.Proxy.Stream.{Read, stream_from_first_token}
use llms_chaos.Proxy.Serve.{
  Request, Phase, choosing, racing, streaming, replied, answered, wants_stream, choose,
  count_hedged, after_race, settle, limit_after, after_stream, stream_first, Event, chooses,
  on_race, on_older, settles, streams, with_race, with_older, handler_step, step,
}
use llms_chaos.Proxy.Serve.Orderly.{
  race_step-Goes, IsOrderly, is_racing, is_choosing, race-IsOrderly, older-IsOrderly,
  leave-IsOrderly, next_attempt-IsOrderly, written-IsOrderly,
}
use llms_chaos.Proxy.Serve.Slots.{
  request_holds, at_hand, Kept, at_hand-moved, next_attempt-holds, choose-Kept, after_race-Kept,
}

limit_after-count :
    (j : String) (f : Forwarder) (id : String) (res : Outcome)
    → has_limiter f ≡ true
    → (has_limiter (limit_after f id res) ≡ true)
      × (count_of j (limit_after f id res) ≡ count_of j (give_back f id))
unfolding limit_after
limit_after-count j f id res has =
    let g = give_back f id in
    let has_g = (give_back-count f id j has).0 in
    elim (Bool-cases res.ok) [
      | inl good ↦ elim (Option-cases g.limiter) [
        | inl e ↦ absurd (ground (arith, e))
        | inr (l, e) ↦ rw (good, e, limit_after) (refl, (inflight_kept l id j).0)
      ]
      | inr bad ↦ elim (Bool-cases (is_timeout? res.err)) [
        | inl late ↦ rw (bad, late, limit_after) (note_timeout-count g id j has_g)
        | inr other ↦ rw (bad, other, limit_after) (has_g, refl)
      ]
    ]

limit_after_frees :
    (j : String) (f : Forwarder) (x : FirstOutcome) (res : Outcome)
    → has_limiter f ≡ true
    → outcome_holds j x ≤ count_of j f
    → count_of j (limit_after f x.worker res) + outcome_holds j x ≡ count_of j f
limit_after_frees j f x res has held =
    let (_, same) = limit_after-count j f x.worker res has in
    let (_, count) = give_back-count f x.worker j has in ground (arith, same, count)

pair-Kept :
    (j : String) (f f' : Forwarder) (r r' : Request) (p : Forwarder × Request)
    → some p ≡ some (f', r')
    → Kept j f r p.0 p.1
    → Kept j f r f' r'
pair-Kept j f f' r r' p e k =
    subst (λ (q : Forwarder × Request). Kept j f r q.0 q.1) (some-injective p (f', r') e) k

count_hedged-limiter : (f : Forwarder) (hedged : Bool) → (count_hedged f hedged).limiter ≡ f.limiter
count_hedged-limiter f true = refl
count_hedged-limiter f false = refl

pub with_race-some :
    (r r' : Request) (x : Option (Forwarder × Attempt)) (f' : Forwarder)
    → with_race r x ≡ some (f', r')
    → (s' : Attempt) × (x ≡ some (f', s')) × (record r { race = s' } ≡ r')
with_race-some r r' none f' h = cc
with_race-some r r' (some (g, s)) f' h =
    let e = some-injective (g, record r { race = s }) (f', r') h in
    (s, ap (λ (p : Forwarder × Request). some (p.0, s)) e, ap (λ (p : Forwarder × Request). p.1) e)

pub with_older-some :
    (r r' : Request) (x : Option (Forwarder × Attempt)) (f' : Forwarder)
    → with_older r x ≡ some (f', r')
    → (s' : Attempt) × (x ≡ some (f', s')) × (record r { older = s' } ≡ r')
with_older-some r r' none f' h = cc
with_older-some r r' (some (g, s)) f' h =
    let e = some-injective (g, record r { older = s }) (f', r') h in
    (s, ap (λ (p : Forwarder × Request). some (p.0, s)) e, ap (λ (p : Forwarder × Request). p.1) e)

module _ (j : String) (f f' : Forwarder) (r r' : Request) (limited : has_limiter f ≡ true)
    (o : IsOrderly r) where
  settle-Kept :
      (m : Main FirstOutcome) (ctx_ended : Bool) (now : ℕ)
      → r.race.main ≡ m
      → is_racing r.phase ≡ true
      → settle m f r ctx_ended now ≡ some (f', r')
      → Kept j f r f' r'
  settle-Kept (returned res hedged) ctx_ended now e c h =
      let g = count_hedged f hedged in
      pair-Kept j f f' r r' (after_race g r res ctx_ended now) h (
        after_race-Kept j f r limited o g res ctx_ended now (count_hedged-limiter f hedged) c
          (ap is_settled e) (ap (main_holds j) e))
  settle-Kept (gave_up x hedged) ctx_ended now e c h =
      let g = count_hedged f hedged in
      pair-Kept j f f' r r' (after_race g r (err x) true now) h (
        after_race-Kept j f r limited o g (err x) true now (count_hedged-limiter f hedged) c
          (ap is_settled e) (ap (main_holds j) e))
  settle-Kept _ ctx_ended now e c h = cc

  on_race-Kept :
      (e : RaceEvent)
      → request_holds j r ≤ count_of j f
      → with_race r (race_step f r.race e) ≡ some (f', r')
      → Kept j f r f' r'
  on_race-Kept e held h =
      let (s', went, same) = with_race-some r r' (race_step f r.race e) f' h in
      let b = race_step-Balanced j f f' r.race s' e limited o.cleans (omega arith) went in
      let goes = race_step-Goes f' r.race s' f e went in
      let moved =
        at_hand-moved j r.phase r.race.main s'.main
          (λ x. step-is_settled r.race s' goes.0 (o.settled x) goes.1) in
      subst (Kept j f r f') same (record {
        limited = b.limited;
        orderly = race-IsOrderly r o s' goes;
        balance = omega (arith, b.balance, moved);
      })

  on_older-Kept :
      (e : RaceEvent)
      → request_holds j r ≤ count_of j f
      → with_older r (race_step f r.older e) ≡ some (f', r')
      → Kept j f r f' r'
  on_older-Kept e held h =
      let (s', went, same) = with_older-some r r' (race_step f r.older e) f' h in
      let b = race_step-Balanced j f f' r.older s' e limited o.older_cleans (omega arith) went in
      let goes = race_step-Goes f' r.older s' f e went in
      let main = step-is_settled r.older s' goes.0 o.older_settled goes.1 in
      subst (Kept j f r f') same (record {
        limited = b.limited;
        orderly = older-IsOrderly r o s' goes;
        balance = omega (arith, b.balance, ap (main_holds j) main);
      })

module _ (j : String) (f : Forwarder) (r : Request) (limited : has_limiter f ≡ true)
    (o : IsOrderly r) where
  after_stream-Kept :
      (x : FirstOutcome) (res : Outcome) (now : ℕ)
      → r.phase ≡ streaming x
      → request_holds j r ≤ count_of j f
      → let p = after_stream f r x res now in Kept j f r p.0 p.1
  unfolding after_stream
  after_stream-Kept x res now e held =
      let (has, _) = limit_after-count j f x.worker res limited in
      let hand = ap (λ ph. at_hand j ph r.race.main) e in
      let frees = limit_after_frees j f x res limited (omega (arith, hand)) in
      let done = o.settled (ap is_racing e) in
      elim (Bool-cases (res.ok || res.sent_headers)) [
        | inl sent ↦
            rw (sent, after_stream)
              (record {
                limited = has;
                orderly = leave-IsOrderly r o (replied answered) r.written done refl;
                balance = omega (arith, frees, hand);
              })
        | inr unsent ↦
            rw (unsent, after_stream)
              (record {
                limited = has;
                orderly = next_attempt-IsOrderly r o done;
                balance = omega (arith, frees, hand, next_attempt-holds j r);
              })
      ]

module _ (j : String) (f f' : Forwarder) (r r' : Request) (limited : has_limiter f ≡ true)
    (o : IsOrderly r) where
  stream_first-Kept :
      (x : FirstOutcome) (ctx_err : Option Error) (reads : List Read) (e : Error) (now : ℕ)
      → r.phase ≡ streaming x
      → request_holds j r ≤ count_of j f
      → let p = stream_first f r x ctx_err reads e now in Kept j f r p.0 p.1
  unfolding stream_first
  stream_first-Kept x ctx_err reads e now at held =
      let (s, res) =
        stream_from_first_token f.metrics (wants_stream r.body) x.elapsed x.payload ctx_err reads
          e in
      let r2 = record r { written = r.written ++ s.writes } in
      let k =
        after_stream-Kept j (record f { metrics = s.metrics }) r2 limited
          (written-IsOrderly r o (r.written ++ s.writes)) x res now at held in
      record { limited = k.limited; orderly = k.orderly; balance = k.balance }

  handler_step-Kept :
      (ph : Phase) (e : Event)
      → r.phase ≡ ph
      → request_holds j r ≤ count_of j f
      → handler_step ph f r e ≡ some (f', r')
      → Kept j f r f' r'
  handler_step-Kept choosing (chooses i k l m now) at held h =
      pair-Kept j f f' r r' (choose f r i k l m now) h
        (choose-Kept j f r limited o i k l m now (ap is_choosing at))
  handler_step-Kept racing (settles ctx_ended now) at held h =
      settle-Kept j f f' r r' limited o r.race.main ctx_ended now refl (ap is_racing at) h
  handler_step-Kept (streaming x) (streams ctx_err reads e now) at held h =
      pair-Kept j f f' r r' (stream_first f r x ctx_err reads e now) h
        (stream_first-Kept x ctx_err reads e now at held)
  handler_step-Kept _ _ at held h = cc

  -- Whatever step a request takes, the limiter's count of requests in flight to a worker rises by
  -- what the request has taken up of that worker's slots and falls by what it has put down.
  pub step-Kept :
      (e : Event) → request_holds j r ≤ count_of j f → step f r e ≡ some (f', r') → Kept j f r f' r'
  unfolding step
  step-Kept (on_race e) held h = on_race-Kept j f f' r r' limited o e held h
  step-Kept (on_older e) held h = on_older-Kept j f f' r r' limited o e held h
  step-Kept (chooses i k l m now) held h =
      handler_step-Kept r.phase (chooses i k l m now) refl held h
  step-Kept (settles c now) held h = handler_step-Kept r.phase (settles c now) refl held h
  step-Kept (streams c reads e now) held h =
      handler_step-Kept r.phase (streams c reads e now) refl held h
