-- ===== src/Proxy/Serve/Kept.antt =====
-- What every step of `Serve` in gateway/internal/proxy/proxy.go keeps.
use llms_chaos.Prelude.{
  ℕ, ◌≡◌, subst, Bool, true, false, String, ◌=ₛ◌, List, ◌++◌, Option, none, some, ◌==◌, ◌||◌, ◌/◌,
  Bool-cases, inl, inr,
}
use mathlib.Core.Option.{some-injective}
use llms_chaos.Prelude.Optional.{Option_elim}
use llms_chaos.Breaker.Registry.{record_for}
use llms_chaos.Errors.{Error, is_busy, Result, ok, err}
use llms_chaos.Hedge.Race.{Main, returned, gave_up}
use llms_chaos.Limiter
use llms_chaos.Limiter.{on_success, succeeds}
use llms_chaos.Middleware.{retry}
use llms_chaos.Proxy.{Forwarder, Outcome, is_timeout?}
use llms_chaos.Proxy.Attempt.{FirstOutcome, give_back, note_timeout, allowed, race_step}
use llms_chaos.Proxy.Attempt.Kept.{
  IsKept, allowed-Kept, give_back-Kept, note_timeout-Kept, race_step-Kept,
}
use llms_chaos.Proxy.Stream.{Read, stream_from_first_token}
use llms_chaos.Proxy.Serve
use llms_chaos.Proxy.Serve.{
  Request, Phase, choosing, racing, streaming, wants_stream, pick_again, or_pick_again,
  choose_primary, choose, go_on_with, try_primary, count_hedged, after_race, settle, limit_after,
  after_stream, observe_hedge, stream_first, chooses, on_race, on_older, settles, streams,
  handler_step,
}
use llms_chaos.Proxy.Serve.Conserved.{with_race-some, with_older-some}
use llms_chaos.Router.{Worker, pick_except, pick_for_key, observe_in}

module _ {R : Forwarder → Forwarder → Type 0} (k : IsKept R) where
  pick_again-Kept : (f : Forwarder) (key : String) (i j : ℕ) → R f (pick_again f key i j).0
  pick_again-Kept f key i j = k.repools f (pick_for_key f.pool key i j).0

  or_pick_again-Kept :
      (f : Forwarder) (o : Option Worker) (key : String) (i j : ℕ)
      → R f (or_pick_again f o key i j).0
  or_pick_again-Kept f none key i j = pick_again-Kept f key i j
  or_pick_again-Kept f (some w) key i j = k.stays f

  choose_primary-Kept :
      (f : Forwarder) (r : Request) (i j a b : ℕ) → R f (choose_primary f r i j a b).0
  unfolding choose_primary
  choose_primary-Kept f r i j a b =
      let f' = record f { metrics = retry f.metrics } in
      let again = λ (p : Forwarder × Option Worker). k.both f f' p.0 (k.retries f) in
      let o = pick_except f'.pool r.prev_id i j in
      elim (Bool-cases (r.attempt == 0)) [
        | inl e ↦ rw (e, choose_primary) (pick_again-Kept f r.session_key i j)
        | inr e ↦ elim (Bool-cases (r.prev_id =ₛ "")) [
          | inl e' ↦
              rw (e, e', choose_primary)
                (again (pick_again f' r.session_key i j) (pick_again-Kept f' r.session_key i j))
          | inr e' ↦
              rw (e, e', choose_primary)
                (again (or_pick_again f' o r.session_key a b)
                  (or_pick_again-Kept f' o r.session_key a b))
        ]
      ]

  try_primary-Kept :
      (g : Forwarder) (may : Bool) (r : Request) (id : String) → R g (try_primary (g, may) r id).0
  try_primary-Kept g true r id = k.stays g
  try_primary-Kept g false r id = k.stays g

  go_on_with-Kept :
      (g : Forwarder) (w : Option Worker) (r : Request) (now : ℕ) → R g (go_on_with (g, w) r now).0
  go_on_with-Kept g none r now = k.stays g
  go_on_with-Kept g (some w) r now =
      let (g', may) = allowed g w.id now in
      let r' = record r { prev_id = w.id } in
      k.both g g' (try_primary (g', may) r' w.id).0 (allowed-Kept k g w.id now)
        (try_primary-Kept g' may r' w.id)

  choose-Kept : (f : Forwarder) (r : Request) (i j a b now : ℕ) → R f (choose f r i j a b now).0
  unfolding choose
  choose-Kept f r i j a b now =
      let p = choose_primary f r i j a b in
      k.both f p.0 (go_on_with p r now).0 (choose_primary-Kept f r i j a b)
        (go_on_with-Kept p.0 p.1 r now)

  count_hedged-Kept : (f : Forwarder) (hedged : Bool) → R f (count_hedged f hedged)
  count_hedged-Kept f true = k.retries f
  count_hedged-Kept f false = k.stays f

  after_race-Kept :
      (f : Forwarder) (r : Request) (res : Result FirstOutcome) (ended : Bool) (now : ℕ)
      → R f (after_race f r res ended now).0
  unfolding after_race
  after_race-Kept f r (ok o) ended now = k.stays f
  after_race-Kept f r (err e) ended now = elim (Bool-cases (is_busy e)) [
    | inl busy ↦ rw (busy, after_race) (k.rejects f)
    | inr other ↦ rw (other, after_race) (k.breaks f (record_for f.breakers r.prev_id false now))
  ]

  limit_after-Kept : (f : Forwarder) (id : String) (res : Outcome) → R f (limit_after f id res)
  unfolding limit_after Limiter.step
  limit_after-Kept f id res =
      let g = give_back f id in
      let given = give_back-Kept k f id in
      elim (Bool-cases res.ok) [
        | inl good ↦
            rw (good, limit_after)
              (k.both f g _ given (
                Option_elim (R g) g.limiter g (λ l. record g { limiter = some (on_success l id) })
                  (k.stays g) (λ l e. k.limits g l (id, succeeds) e)))
        | inr bad ↦ elim (Bool-cases (is_timeout? res.err)) [
          | inl late ↦
              rw (bad, late, limit_after)
                (k.both f g (note_timeout g id) given (note_timeout-Kept k g id))
          | inr other ↦ rw (bad, other, limit_after) given
        ]
      ]

  after_stream-Kept :
      (f : Forwarder) (r : Request) (o : FirstOutcome) (res : Outcome) (now : ℕ)
      → R f (after_stream f r o res now).0
  unfolding after_stream
  after_stream-Kept f r o res now =
      let f1 = limit_after f o.worker res in
      let f2 = record f1 { breakers = record_for f1.breakers o.worker res.ok now } in
      let h = observe_hedge f1.hedge (res.ok || res.sent_headers) o.elapsed in
      let p = observe_in f1.pool o.worker (o.elapsed / 1_000_000) in
      let f3 = record f2 { hedge = h } in
      k.both f f1 (record f3 { pool = p }) (limit_after-Kept f o.worker res)
        (k.both f1 f2 (record f3 { pool = p }) (k.breaks f1 f2.breakers)
          (k.both f2 f3 (record f3 { pool = p }) (k.hedges f2 h) (k.repools f3 p)))

  stream_first-Kept :
      (f : Forwarder) (r : Request) (o : FirstOutcome) (ctx_err : Option Error) (reads : List Read)
      (e : Error) (now : ℕ)
      → R f (stream_first f r o ctx_err reads e now).0
  unfolding stream_first
  stream_first-Kept f r o ctx_err reads e now =
      let stream = wants_stream r.body in
      let (s, res) = stream_from_first_token f.metrics stream o.elapsed o.payload ctx_err reads e in
      let g = record f { metrics = s.metrics } in
      let r' = record r { written = r.written ++ s.writes } in
      k.both f g (after_stream g r' o res now).0
        (k.counts f stream o.elapsed o.payload ctx_err reads e) (after_stream-Kept g r' o res now)

  pair-Kept :
      (f f' : Forwarder) (r' : Request) (p : Forwarder × Request)
      → some p ≡ some (f', r')
      → R f p.0
      → R f f'
  pair-Kept f f' r' p h kept =
      subst (λ (q : Forwarder × Request). R f q.0) (some-injective p (f', r') h) kept

  settle-Kept :
      (f f' : Forwarder) (r r' : Request) (m : Main FirstOutcome) (ended : Bool) (now : ℕ)
      → settle m f r ended now ≡ some (f', r')
      → R f f'
  settle-Kept f f' r r' (returned res hedged) ended now h =
      let g = count_hedged f hedged in
      let p = after_race g r res ended now in
      pair-Kept f f' r' p h
        (k.both f g p.0 (count_hedged-Kept f hedged) (after_race-Kept g r res ended now))
  settle-Kept f f' r r' (gave_up e hedged) ended now h =
      let g = count_hedged f hedged in
      let p = after_race g r (err e) true now in
      pair-Kept f f' r' p h
        (k.both f g p.0 (count_hedged-Kept f hedged) (after_race-Kept g r (err e) true now))
  settle-Kept f f' r r' _ ended now h = cc

  handler_step-Kept :
      (f f' : Forwarder) (r r' : Request) (ph : Phase) (e : Serve.Event)
      → handler_step ph f r e ≡ some (f', r')
      → R f f'
  handler_step-Kept f f' r r' choosing (chooses i j a b now) h =
      pair-Kept f f' r' (choose f r i j a b now) h (choose-Kept f r i j a b now)
  handler_step-Kept f f' r r' racing (settles ended now) h =
      settle-Kept f f' r r' r.race.main ended now h
  handler_step-Kept f f' r r' (streaming o) (streams c reads e now) h =
      pair-Kept f f' r' (stream_first f r o c reads e now) h (stream_first-Kept f r o c reads e now)
  handler_step-Kept f f' r r' _ e h = cc

  pub step-Kept :
      (f f' : Forwarder) (r r' : Request) (e : Serve.Event)
      → Serve.step f r e ≡ some (f', r')
      → R f f'
  unfolding Serve.step
  step-Kept f f' r r' (on_race e) h =
      let (s', went, _) = with_race-some r r' (race_step f r.race e) f' h in
      race_step-Kept k f f' r.race s' e went
  step-Kept f f' r r' (on_older e) h =
      let (s', went, _) = with_older-some r r' (race_step f r.older e) f' h in
      race_step-Kept k f f' r.older s' e went
  step-Kept f f' r r' (chooses i j a b now) h =
      handler_step-Kept f f' r r' r.phase (chooses i j a b now) h
  step-Kept f f' r r' (settles c now) h = handler_step-Kept f f' r r' r.phase (settles c now) h
  step-Kept f f' r r' (streams c reads e now) h =
      handler_step-Kept f f' r r' r.phase (streams c reads e now) h
