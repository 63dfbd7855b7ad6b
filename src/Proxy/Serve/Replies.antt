-- ===== src/Proxy/Serve/Replies.antt =====
-- What a request's client is sent, and how long its handler goes on (proxy.go, `Serve`). A run of one
-- request has, for each of its events, the forwarder that the event finds, whatever the other requests
-- have made of it.
use llms_chaos.Prelude.{
  ℕ, suc, ◌+◌, ◌≤◌, ◌≡◌, refl, subst, Bool, true, false, String, List, [], ◌∷◌, Option, none, some,
  arith, if◌then◌else◌, Option-cases, inl, inr,
}
use mathlib.Core.Option.{some-injective}
use llms_chaos.Proxy.{Forwarder, ChatRequest}
use llms_chaos.Proxy.Attempt.{race_step}
use llms_chaos.Proxy.Serve.{
  Request, receive, Event, chooses, on_race, on_older, settles, streams, handler_step, step,
}
use llms_chaos.Proxy.Serve.Conserved.{with_race-some, with_older-some}
use llms_chaos.Proxy.Serve.Advance.{
  is_answered, rank, IsQuiet, receive-IsQuiet, handler_step-Advances,
}

-- A step of the handler itself, and not of one of its races.
abbrev pub is_move : Event → Bool
is_move (on_race e) = false
is_move (on_older e) = false
is_move _ = true

-- A run of one request: each event with the forwarder that it finds.
abbrev pub moves_of : List (Forwarder × Event) → ℕ
moves_of [] = 0
moves_of ((f, e) ∷ es) = if is_move e then suc (moves_of es) else moves_of es

abbrev pub then_request : Option (Forwarder × Request) → (Request → Option Request) → Option Request
then_request none k = none
then_request (some (f, r)) k = k r

unfoldable pub request_run : Request → List (Forwarder × Event) → Option Request
request_run r [] = some r
request_run r ((f, e) ∷ es) = then_request (step f r e) (λ r'. request_run r' es)

-- Any step keeps a request quiet, and the bound on the handler's steps pays for it.
record Pays (r r' : Request) (cost : ℕ) : Type 0 where
  quiet : IsQuiet r'
  paid : rank r' + cost ≤ rank r

module _ (r : Request) (q : IsQuiet r) (f f' : Forwarder) (r' : Request) where
  handled : (e : Event) → handler_step r.phase f r e ≡ some (f', r') → Pays r r' 1
  handled e h =
      let a = handler_step-Advances r q r.phase f e f' r' refl h in
      record { quiet = a.quiet; paid = omega (arith, a.less) }

  step-Pays : (e : Event) → step f r e ≡ some (f', r') → Pays r r' (if is_move e then 1 else 0)
  unfolding step
  step-Pays (on_race e) h =
      let (s', _, same) = with_race-some r r' (race_step f r.race e) f' h in
      subst (λ t. Pays r t 0) same
        (record { quiet = record { bounded = q.bounded; silent = q.silent }; paid = omega arith })
  step-Pays (on_older e) h =
      let (s', _, same) = with_older-some r r' (race_step f r.older e) f' h in
      subst (λ t. Pays r t 0) same
        (record { quiet = record { bounded = q.bounded; silent = q.silent }; paid = omega arith })
  step-Pays (chooses i j k l now) h = handled (chooses i j k l now) h
  step-Pays (settles c now) h = handled (settles c now) h
  step-Pays (streams c reads e now) h = handled (streams c reads e now) h

request_run-Pays :
    (r r' : Request) (es : List (Forwarder × Event))
    → IsQuiet r
    → request_run r es ≡ some r'
    → Pays r r' (moves_of es)
unfolding request_run
request_run-Pays r r' [] q h =
    subst (λ t. Pays r t 0) (some-injective r r' h) (record { quiet = q; paid = omega arith })
request_run-Pays r r' ((f, e) ∷ es) q h = elim (Option-cases (step f r e)) [
  | inl stuck ↦ absurd (ground (arith, stuck))
  | inr ((f1, r1), went) ↦
      let first = step-Pays r q f f1 r1 e went in
      let later = request_run-Pays r1 r' es first.quiet (rw went at h) in
      record { quiet = later.quiet; paid = ground (arith, first.paid, later.paid) }
]

receive-rank : (body : Option ChatRequest) (key : String) → rank (receive body key) ≤ 6
unfolding receive
receive-rank none key = omega arith
receive-rank (some req) key = omega arith

-- The handler of a request takes at most six steps, whatever its races do and whatever other requests
-- make of the forwarder in the meantime.
pub handler_terminates :
    (body : Option ChatRequest) (key : String) (r : Request) (es : List (Forwarder × Event))
    → request_run (receive body key) es ≡ some r
    → moves_of es ≤ 6
handler_terminates body key r es h = omega (
  arith,
  (request_run-Pays (receive body key) r es (receive-IsQuiet body key) h).paid,
  receive-rank body key,
)

-- Until a worker's stream has answered a request, the handler has written nothing of a stream to its
-- client: not after a first attempt that failed, and not before an error reply.
pub unanswered_silent :
    (body : Option ChatRequest) (key : String) (r : Request) (es : List (Forwarder × Event))
    → request_run (receive body key) es ≡ some r
    → is_answered r.phase ≡ false
    → r.written ≡ []
unanswered_silent body key r es h =
    (request_run-Pays (receive body key) r es (receive-IsQuiet body key) h).quiet.silent
