-- ===== src/Proxy/Stream/Headers.antt =====
-- What a stream that ends without having sent anything leaves behind, and what it counts (proxy.go,
-- `streamFromFirstToken`).
use llms_chaos.Prelude.{
  ℕ, ◌≡◌, inl, inr, refl, Bool, false, List, [], ◌∷◌, Option, none, some, arith, if◌then◌else◌,
  Option-cases,
}
use llms_chaos.Errors.{Error}
use llms_chaos.Middleware.{Metrics, add_one, end_request, observe_ttft}
use llms_chaos.Proxy.{Outcome}
use llms_chaos.Proxy.Stream.{Line, Read, Progress, handle, loop, stream_from_first_token}

-- What holds of an outcome and the progress behind it, for a stream that began with `m`.
pub record Fair (m : Metrics) (s : Progress) (o : Outcome) : Type 0 where
  pub unsent :
      o.sent_headers ≡ false → (s.writes ≡ []) × (o.ok ≡ false) × ((e : Error) × (o.err ≡ some e))
  pub counted : s.metrics.requests ≡ (if o.ok then add_one m.requests else m.requests)
  pub failures : s.metrics.failures ≡ m.failures
  pub others :
      (s.metrics.retries ≡ m.retries)
      × (s.metrics.rejected ≡ m.rejected)
      × (s.metrics.inflight ≡ m.inflight)

-- What holds before each line.
record IsQuiet (m : Metrics) (s : Progress) : Type 0 where
  silent : s.header_sent ≡ false → s.writes ≡ []
  requests : s.metrics.requests ≡ m.requests
  failures : s.metrics.failures ≡ m.failures
  others :
      (s.metrics.retries ≡ m.retries)
      × (s.metrics.rejected ≡ m.rejected)
      × (s.metrics.inflight ≡ m.inflight)

handle_on :
    (m : Metrics) (stream : Bool) (el : ℕ) (s : Progress) (l : Line) (x : Option Error)
    → IsQuiet m s
    → (handle stream el s l x).1 ≡ none
    → IsQuiet m (handle stream el s l x).0
unfolding handle end_request observe_ttft
handle_on m stream el s l x q h = ground arith

handle_out :
    (m : Metrics) (stream : Bool) (el : ℕ) (s : Progress) (l : Line) (x : Option Error)
    (o : Outcome)
    → IsQuiet m s
    → (handle stream el s l x).1 ≡ some o
    → Fair m (handle stream el s l x).0 o
unfolding handle end_request observe_ttft
handle_out m stream el s l x o q h = ground arith

loop-Fair :
    (m : Metrics) (stream : Bool) (el : ℕ) (s : Progress) (rs : List Read) (e : Error)
    → IsQuiet m s
    → Fair m (loop stream el s rs e).0 (loop stream el s rs e).1
unfolding loop
loop-Fair m stream el s [] e q = record {
  unsent = λ h. (ground arith, ground arith, (e, ground arith));
  counted = ground arith;
  failures = ground arith;
  others = ground arith;
}
loop-Fair m stream el s ((l, x) ∷ rs) e q = elim (Option-cases (handle stream el s l x).1) [
  | inl on ↦
      rw (on, loop)
        (loop-Fair m stream el (handle stream el s l x).0 rs e (handle_on m stream el s l x q on))
  | inr (o, out) ↦ rw (out, loop) (handle_out m stream el s l x o q out)
]

stream-Fair :
    (m : Metrics) (stream : Bool) (el : ℕ) (l : Line) (x : Option Error) (rs : List Read)
    (e : Error)
    → let (s, o) = stream_from_first_token m stream el l x rs e in Fair m s o
unfolding stream_from_first_token
stream-Fair m stream el l x rs e =
    loop-Fair m stream el _ ((l, x) ∷ rs) e
      (record { silent = λ _. refl; requests = refl; failures = refl; others = (refl, refl, refl) })

-- A stream that ends without having sent its headers has written nothing to the client, and ends with
-- an error.
pub unsent_silent :
    (m : Metrics) (stream : Bool) (el : ℕ) (l : Line) (x : Option Error) (rs : List Read)
    (e : Error)
    → (stream_from_first_token m stream el l x rs e).1.sent_headers ≡ false
    → ((stream_from_first_token m stream el l x rs e).0.writes ≡ [])
      × ((stream_from_first_token m stream el l x rs e).1.ok ≡ false)
      × ((err : Error) × ((stream_from_first_token m stream el l x rs e).1.err ≡ some err))
unsent_silent m stream el l x rs e h = (stream-Fair m stream el l x rs e).unsent h

-- A stream counts one request if it succeeds and none if it fails, and never counts a failure.
pub counts_success :
    (m : Metrics) (stream : Bool) (el : ℕ) (l : Line) (x : Option Error) (rs : List Read)
    (e : Error)
    → let (s, o) = stream_from_first_token m stream el l x rs e in
      (s.metrics.requests ≡ (if o.ok then add_one m.requests else m.requests))
      × (s.metrics.failures ≡ m.failures)
counts_success m stream el l x rs e =
    let fair = stream-Fair m stream el l x rs e in (fair.counted, fair.failures)
