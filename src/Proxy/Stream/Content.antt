-- ===== src/Proxy/Stream/Content.antt =====
-- What the client receives of a stream, against the frames that the worker sent (proxy.go,
-- `streamFromFirstToken`).
use llms_chaos.Prelude.{
  ℕ, ◌≡◌, inl, inr, refl, Bool, true, false, String, ◌=ₛ◌, List, [], ◌∷◌, ◌++◌, map, Option, none,
  some, arith, if◌then◌else◌, Bool-cases,
}
use mathlib.Core.List.{append_assoc, append-nil}
use llms_chaos.Errors.{Error}
use llms_chaos.Middleware.{Metrics}
use llms_chaos.Proxy.{Frame, Outcome}
use llms_chaos.Proxy.Stream.{
  Line, skipped, done, garbled, frame, Read, Write, chunk, done_mark, completion, Progress, handle,
  loop, stream_from_first_token,
}

-- The frames that carry a token, up to the done mark, whoever listens.
abbrev pub token_frames : List Read → List Frame
token_frames [] = []
token_frames ((skipped, _) ∷ rs) = token_frames rs
token_frames ((garbled, _) ∷ rs) = token_frames rs
token_frames ((done, _) ∷ rs) = []
token_frames ((frame f, _) ∷ rs) =
    if f.finish_reason =ₛ "" then f ∷ token_frames rs else token_frames rs

abbrev pub has_done : List Read → Bool
has_done [] = false
has_done ((done, _) ∷ rs) = true
has_done (_ ∷ rs) = has_done rs

abbrev pub tokens : List Frame → List String
tokens = map (λ f. f.token)

abbrev pub chunks : List Frame → List Write
chunks = map (λ f. chunk f.index f.token)

loop_next :
    (stream : Bool) (el : ℕ) (s : Progress) (l : Line) (x : Option Error) (rs : List Read)
    (e : Error)
    → (handle stream el s l x).1 ≡ none
    → loop stream el s ((l, x) ∷ rs) e ≡ loop stream el (handle stream el s l x).0 rs e
unfolding loop
loop_next stream el s l x rs e h = rw (h, loop)

loop_stop :
    (stream : Bool) (el : ℕ) (s : Progress) (l : Line) (x : Option Error) (rs : List Read)
    (e : Error) (o : Outcome)
    → (handle stream el s l x).1 ≡ some o
    → loop stream el s ((l, x) ∷ rs) e ≡ ((handle stream el s l x).0, o)
unfolding loop
loop_stop stream el s l x rs e o h = rw (h, loop)

-- A frame that only says why the worker finished.
handle-last :
    (stream : Bool) (el : ℕ) (s : Progress) (f : Frame) (x : Option Error)
    → (f.finish_reason =ₛ "") ≡ false
    → let (s', o) = handle stream el s (frame f) x in
      (o ≡ none)
      × (s'.writes ≡ s.writes)
      × (s'.collected ≡ s.collected)
      × (s'.header_sent ≡ s.header_sent)
unfolding handle
handle-last stream el s f x h = ground arith

handle-token :
    (el : ℕ) (s : Progress) (f : Frame) (x : Option Error)
    → (f.finish_reason =ₛ "") ≡ true
    → let (s', o) = handle false el s (frame f) x in
      (o ≡ none) × (s'.writes ≡ s.writes) × (s'.collected ≡ s.collected ++ f.token ∷ [])
unfolding handle
handle-token el s f x h = ground arith

abbrev whole_writes : Progress → List Read → List Write
whole_writes s rs =
    if has_done rs
    then s.writes ++ completion (s.collected ++ tokens (token_frames rs)) ∷ []
    else s.writes

loop-whole_frame :
    (el : ℕ) (s : Progress) (f : Frame) (x : Option Error) (rs : List Read) (e : Error)
    → let s' = (handle false el s (frame f) x).0 in
      ((loop false el s' rs e).0.writes ≡ whole_writes s' rs)
        × ((loop false el s' rs e).1.ok ≡ has_done rs)
      → ((loop false el s ((frame f, x) ∷ rs) e).0.writes ≡ whole_writes s ((frame f, x) ∷ rs))
        × ((loop false el s ((frame f, x) ∷ rs) e).1.ok ≡ has_done rs)
loop-whole_frame el s f x rs e rest = elim (Bool-cases (f.finish_reason =ₛ "")) [
  | inl token ↦
      let (on, same, more) = handle-token el s f x token in
      ground (
        arith,
        loop_next false el s (frame f) x rs e on,
        append_assoc s.collected (f.token ∷ []) (tokens (token_frames rs)),
      )
  | inr last ↦
      let (on, same, more, _) = handle-last false el s f x last in
      ground (arith, loop_next false el s (frame f) x rs e on)
]

pub loop-whole :
    (el : ℕ) (s : Progress) (rs : List Read) (e : Error)
    → ((loop false el s rs e).0.writes ≡ whole_writes s rs)
      × ((loop false el s rs e).1.ok ≡ has_done rs)
unfolding loop handle
loop-whole el s [] e = ground arith
loop-whole el s ((skipped, x) ∷ rs) e = loop-whole el s rs e
loop-whole el s ((garbled, x) ∷ rs) e = loop-whole el s rs e
loop-whole el s ((done, x) ∷ rs) e = (rw (append-nil s.collected), refl)
loop-whole el s ((frame f, x) ∷ rs) e =
    loop-whole_frame el s f x rs e (loop-whole el (handle false el s (frame f) x).0 rs e)

-- Without streaming the client is sent one whole completion if the worker sends its done mark, with the
-- tokens of all frames before it in their order, and nothing at all if it does not; the stream
-- succeeds exactly in the first case.
pub whole_reply :
    (m : Metrics) (el : ℕ) (l : Line) (x : Option Error) (rs : List Read) (e : Error)
    → let reads = (l, x) ∷ rs in
      let (s, o) = stream_from_first_token m false el l x rs e in
      (s.writes ≡ (if has_done reads then completion (tokens (token_frames reads)) ∷ [] else []))
      × (o.ok ≡ has_done reads)
unfolding stream_from_first_token
whole_reply m el l x rs e = loop-whole el _ ((l, x) ∷ rs) e

-- The frames whose tokens reach the client: none behind one after which its context had ended.
abbrev pub heard : List Read → List Frame
heard [] = []
heard ((skipped, _) ∷ rs) = heard rs
heard ((garbled, _) ∷ rs) = heard rs
heard ((done, _) ∷ rs) = []
heard ((frame f, none) ∷ rs) = if f.finish_reason =ₛ "" then f ∷ heard rs else heard rs
heard ((frame f, some _) ∷ rs) = if f.finish_reason =ₛ "" then f ∷ [] else heard rs

-- the done mark comes before the client has left.
abbrev pub completes : List Read → Bool
completes [] = false
completes ((skipped, _) ∷ rs) = completes rs
completes ((garbled, _) ∷ rs) = completes rs
completes ((done, _) ∷ rs) = true
completes ((frame f, none) ∷ rs) = completes rs
completes ((frame f, some _) ∷ rs) = if f.finish_reason =ₛ "" then false else completes rs

abbrev chunked_writes : List Write → List Read → List Write
chunked_writes before rs =
    before ++ (chunks (heard rs) ++ (if completes rs then done_mark ∷ [] else []))

handle-chunk :
    (el : ℕ) (s : Progress) (f : Frame)
    → (f.finish_reason =ₛ "") ≡ true
    → let (s', o) = handle true el s (frame f) none in
      (o ≡ none) × (s'.writes ≡ s.writes ++ chunk f.index f.token ∷ [])
unfolding handle
handle-chunk el s f h = ground arith

handle-leave :
    (el : ℕ) (s : Progress) (f : Frame) (x : Error)
    → (f.finish_reason =ₛ "") ≡ true
    → let (s', o) = handle true el s (frame f) (some x) in
      (o ≡ some (record { ok = false; sent_headers = true; err = some x }))
      × (s'.writes ≡ s.writes ++ chunk f.index f.token ∷ [])
unfolding handle
handle-leave el s f x h = ground arith

loop-chunked_frame :
    (el : ℕ) (s : Progress) (f : Frame) (x : Option Error) (rs : List Read) (e : Error)
    → let s' = (handle true el s (frame f) x).0 in
      ((loop true el s' rs e).0.writes ≡ chunked_writes s'.writes rs)
        × ((loop true el s' rs e).1.ok ≡ completes rs)
      → ((loop true el s ((frame f, x) ∷ rs) e).0.writes
          ≡ chunked_writes s.writes ((frame f, x) ∷ rs))
        × ((loop true el s ((frame f, x) ∷ rs) e).1.ok ≡ completes ((frame f, x) ∷ rs))
loop-chunked_frame el s f none rs e rest = elim (Bool-cases (f.finish_reason =ₛ "")) [
  | inl token ↦
      let (on, more) = handle-chunk el s f token in
      ground (
        arith,
        loop_next true el s (frame f) none rs e on,
        append_assoc s.writes (chunk f.index f.token ∷ [])
            (chunks (heard rs) ++ (if completes rs then done_mark ∷ [] else [])),
      )
  | inr last ↦
      let (on, same, _, _) = handle-last true el s f none last in
      ground (arith, loop_next true el s (frame f) none rs e on)
]
loop-chunked_frame el s f (some x) rs e rest = elim (Bool-cases (f.finish_reason =ₛ "")) [
  | inl token ↦
      let (out, more) = handle-leave el s f x token in
      ground (arith, loop_stop true el s (frame f) (some x) rs e _ out)
  | inr last ↦
      let (on, same, _, _) = handle-last true el s f (some x) last in
      ground (arith, loop_next true el s (frame f) (some x) rs e on)
]

pub loop-chunked :
    (el : ℕ) (s : Progress) (rs : List Read) (e : Error)
    → ((loop true el s rs e).0.writes ≡ chunked_writes s.writes rs)
      × ((loop true el s rs e).1.ok ≡ completes rs)
unfolding loop handle
loop-chunked el s [] e = (rw (append-nil s.writes), ground arith)
loop-chunked el s ((skipped, x) ∷ rs) e = loop-chunked el s rs e
loop-chunked el s ((garbled, x) ∷ rs) e = loop-chunked el s rs e
loop-chunked el s ((done, x) ∷ rs) e = (refl, refl)
loop-chunked el s ((frame f, x) ∷ rs) e =
    loop-chunked_frame el s f x rs e (loop-chunked el (handle true el s (frame f) x).0 rs e)

-- With streaming the client is sent one chunk for each frame with a token, in their order, up to the
-- first one behind which it has left; the done mark follows, and the stream succeeds, exactly if the worker
-- says so before the client leaves.
pub chunked_reply :
    (m : Metrics) (el : ℕ) (l : Line) (x : Option Error) (rs : List Read) (e : Error)
    → let reads = (l, x) ∷ rs in
      let (s, o) = stream_from_first_token m true el l x rs e in
      (s.writes ≡ chunks (heard reads) ++ (if completes reads then done_mark ∷ [] else []))
      × (o.ok ≡ completes reads)
unfolding stream_from_first_token
chunked_reply m el l x rs e = loop-chunked el _ ((l, x) ∷ rs) e
