-- ===== src/Proxy/Serve/Advance.antt =====
-- What a step of the handler does to a request (proxy.go, `Serve`): it comes nearer to its reply, and
-- writes nothing to the client before a worker's stream does.
use llms_chaos.Prelude.{
  ℕ, suc, ◌-◌, ◌*◌, ◌≤◌, ◌<◌, ◌≡◌, refl, ap, subst, Bool, true, false, ◌||◌, String, List, [], ◌++◌,
  Option, none, some, arith, ltb, Bool-cases, inl, inr,
}
use mathlib.Core.Option.{some-injective}
use llms_chaos.Errors.{Error, is_busy, Result, ok, err}
use llms_chaos.Hedge.Race.{Main, returned, gave_up}
use llms_chaos.Proxy.{Forwarder, ChatRequest}
use llms_chaos.Proxy.Attempt.{FirstOutcome, allowed}
use llms_chaos.Proxy.Stream.{Read, stream_from_first_token}
use llms_chaos.Proxy.Stream.Headers.{unsent_silent}
use llms_chaos.Router.{Worker}
use llms_chaos.Proxy.Serve.{
  Request, Phase, choosing, racing, streaming, replied, answered, next_attempt, receive,
  wants_stream, choose_primary, choose, go_on_with, try_primary, count_hedged, after_race, settle,
  after_stream, stream_first, Event, chooses, settles, streams, handler_step,
}

abbrev pub is_answered : Phase → Bool
is_answered (replied answered) = true
is_answered _ = false

-- A bound on the steps that the handler can still take.
abbrev pub steps_left : Phase → ℕ → ℕ
steps_left choosing attempt = 3 * (2 - attempt)
steps_left racing attempt = 3 * (2 - attempt) - 1
steps_left (streaming o) attempt = 3 * (2 - attempt) - 2
steps_left (replied x) attempt = 0

abbrev pub rank : Request → ℕ
rank r = steps_left r.phase r.attempt

abbrev pub is_replied : Phase → Bool
is_replied (replied x) = true
is_replied _ = false

-- A handler that goes on is at its first or second attempt, and until its client was answered it
-- has written nothing.
pub record IsQuiet (r : Request) : Type 0 where
  pub bounded : is_replied r.phase ≡ false → r.attempt < 2
  pub silent : is_answered r.phase ≡ false → r.written ≡ []

-- `r'` is what a step of the handler makes of `r`.
pub record Advances (r r' : Request) : Type 0 where
  pub quiet : IsQuiet r'
  pub less : rank r' < rank r

pub receive-IsQuiet : (body : Option ChatRequest) (key : String) → IsQuiet (receive body key)
unfolding receive
receive-IsQuiet none key = record { bounded = λ x. cc; silent = λ x. refl }
receive-IsQuiet (some req) key = record { bounded = λ x. omega arith; silent = λ x. refl }

module _ (r : Request) (early : r.attempt < 2) (unwritten : r.written ≡ []) where
  next_attempt-Advances : 3 * (2 - r.attempt) - 2 ≤ rank r → Advances r (next_attempt r)
  next_attempt-Advances behind = elim (Bool-cases (ltb (suc r.attempt) 2)) [
    | inl more ↦ rw more (record {
      quiet = record { bounded = λ x. ground arith; silent = λ x. unwritten };
      less = ground arith;
    })
    | inr last ↦ rw last (record {
      quiet = record { bounded = λ x. cc; silent = λ x. unwritten };
      less = ground arith;
    })
  ]

module _ (r : Request) (q : IsQuiet r) where
  try_primary-Advances :
      (g : Forwarder) (may : Bool) (id : String)
      → r.phase ≡ choosing
      → Advances r (try_primary (g, may) (record r { prev_id = id }) id).1
  try_primary-Advances g true id c =
      let early = q.bounded (ap is_replied c) in
      let behind = ap (λ ph. steps_left ph r.attempt) c in
      record {
        quiet = record { bounded = λ x. early; silent = λ x. q.silent (ap is_answered c) };
        less = omega (arith, early, behind);
      }
  try_primary-Advances g false id c =
      let early = q.bounded (ap is_replied c) in
      let behind = ap (λ ph. steps_left ph r.attempt) c in
      let a =
        next_attempt-Advances (record r { prev_id = id }) early (q.silent (ap is_answered c))
          (omega (arith, early, behind)) in
      record { quiet = a.quiet; less = a.less }

  go_on_with-Advances :
      (g : Forwarder) (w : Option Worker) (now : ℕ)
      → r.phase ≡ choosing
      → Advances r (go_on_with (g, w) r now).1
  go_on_with-Advances g none now c =
      let early = q.bounded (ap is_replied c) in
      let behind = ap (λ ph. steps_left ph r.attempt) c in
      record {
        quiet = record { bounded = λ x. cc; silent = λ x. q.silent (ap is_answered c) };
        less = omega (arith, early, behind);
      }
  go_on_with-Advances g (some w) now c =
      try_primary-Advances (allowed g w.id now).0 (allowed g w.id now).1 w.id c

  choose-Advances :
      (f : Forwarder) (i j k l now : ℕ) → r.phase ≡ choosing → Advances r (choose f r i j k l now).1
  unfolding choose
  choose-Advances f i j k l now c =
      go_on_with-Advances (choose_primary f r i j k l).0 (choose_primary f r i j k l).1 now c

  after_race-Advances :
      (g : Forwarder) (res : Result FirstOutcome) (ctx_ended : Bool) (now : ℕ)
      → r.phase ≡ racing
      → Advances r (after_race g r res ctx_ended now).1
  unfolding after_race
  after_race-Advances g (ok o) ctx_ended now c =
      let early = q.bounded (ap is_replied c) in
      let behind = ap (λ ph. steps_left ph r.attempt) c in
      record {
        quiet = record { bounded = λ x. early; silent = λ x. q.silent (ap is_answered c) };
        less = omega (arith, early, behind);
      }
  after_race-Advances g (err e) ctx_ended now c =
      let early = q.bounded (ap is_replied c) in
      let unwritten = q.silent (ap is_answered c) in
      let behind = ap (λ ph. steps_left ph r.attempt) c in
      let again = next_attempt-Advances r early unwritten (omega (arith, early, behind)) in
      elim (Bool-cases (is_busy e)) [
        | inl busy ↦
            rw (busy, after_race)
              (record {
                quiet = record { bounded = λ x. cc; silent = λ x. unwritten };
                less = omega (arith, early, behind);
              })
        | inr other ↦ elim (Bool-cases ctx_ended) [
          | inl gone ↦
              rw (other, gone, after_race)
                (record {
                  quiet = record { bounded = λ x. cc; silent = λ x. unwritten };
                  less = omega (arith, early, behind);
                })
          | inr there ↦ rw (other, there, after_race) again
        ]
      ]

  settle-Advances :
      (m : Main FirstOutcome) (f : Forwarder) (ctx_ended : Bool) (now : ℕ) (f' : Forwarder)
      (r' : Request)
      → r.phase ≡ racing
      → settle m f r ctx_ended now ≡ some (f', r')
      → Advances r r'
  settle-Advances (returned res hedged) f ctx_ended now f' r' c h =
      let p = after_race (count_hedged f hedged) r res ctx_ended now in
      subst (λ (x : Forwarder × Request). Advances r x.1) (some-injective p (f', r') h)
        (after_race-Advances (count_hedged f hedged) res ctx_ended now c)
  settle-Advances (gave_up e hedged) f ctx_ended now f' r' c h =
      let p = after_race (count_hedged f hedged) r (err e) true now in
      subst (λ (x : Forwarder × Request). Advances r x.1) (some-injective p (f', r') h)
        (after_race-Advances (count_hedged f hedged) (err e) true now c)
  settle-Advances _ f ctx_ended now f' r' c h = cc

  -- A stream that has sent its headers ends the request; the other one has written nothing.
  stream_first-Advances :
      (f : Forwarder) (o : FirstOutcome) (ctx_err : Option Error) (reads : List Read) (e : Error)
      (now : ℕ)
      → r.phase ≡ streaming o
      → Advances r (stream_first f r o ctx_err reads e now).1
  unfolding stream_first after_stream
  stream_first-Advances f o ctx_err reads e now c =
      let early = q.bounded (ap is_replied c) in
      let unwritten = q.silent (ap is_answered c) in
      let behind = ap (λ ph. steps_left ph r.attempt) c in
      let out =
        stream_from_first_token f.metrics (wants_stream r.body) o.elapsed o.payload ctx_err reads
          e in
      let r2 = record r { written = r.written ++ out.0.writes } in
      elim (Bool-cases (out.1.ok || out.1.sent_headers)) [
        | inl sent ↦
            rw (sent, stream_first, after_stream)
              (record {
                quiet = record { bounded = λ x. cc; silent = λ x. cc };
                less = omega (arith, early, behind);
              })
        | inr unsent ↦
            let nothing =
              (unsent_silent f.metrics (wants_stream r.body) o.elapsed o.payload ctx_err reads e
                (ground (arith, unsent))).0 in
            let a =
              next_attempt-Advances r2 early (cc (unwritten, nothing))
                (omega (arith, early, behind)) in
            rw (unsent, stream_first, after_stream) (record { quiet = a.quiet; less = a.less })
      ]

  pub handler_step-Advances :
      (ph : Phase) (f : Forwarder) (e : Event) (f' : Forwarder) (r' : Request)
      → r.phase ≡ ph
      → handler_step ph f r e ≡ some (f', r')
      → Advances r r'
  handler_step-Advances choosing f (chooses i j k l now) f' r' c h =
      subst (λ (x : Forwarder × Request). Advances r x.1)
        (some-injective (choose f r i j k l now) (f', r') h) (choose-Advances f i j k l now c)
  handler_step-Advances racing f (settles ctx_ended now) f' r' c h =
      settle-Advances r.race.main f ctx_ended now f' r' c h
  handler_step-Advances (streaming o) f (streams ctx_err reads e now) f' r' c h =
      subst (λ (x : Forwarder × Request). Advances r x.1)
        (some-injective (stream_first f r o ctx_err reads e now) (f', r') h)
        (stream_first-Advances f o ctx_err reads e now c)
  handler_step-Advances _ f e f' r' c h = cc
