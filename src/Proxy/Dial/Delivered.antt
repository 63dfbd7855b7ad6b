-- ===== src/Proxy/Dial/Delivered.antt =====
-- From the bytes of a reply to what the client is sent: `dialFirstToken` and `streamFromFirstToken` of
-- gateway/internal/proxy/proxy.go.
use llms_chaos.Prelude.{
  ℕ, ◌≡◌, refl, sym, ap, subst, ◌∙◌, Bool, true, false, ◌=ₛ◌, if◌then◌else◌, List, [], ◌∷◌, ◌++◌,
  Option, none, map, All,
}
use llms_chaos.Errors.{Error}
use llms_chaos.Middleware.{Metrics}
use llms_chaos.Proxy.{Frame, Outcome}
use llms_chaos.Proxy.Stream.{Write, done_mark, completion, Progress, stream_from_first_token}
use llms_chaos.Proxy.Stream.Content.{
  token_frames, has_done, heard, completes, tokens, chunks, loop-whole, loop-chunked,
}
use llms_chaos.Proxy.Dial.{
  Bytes, RawLine, Wire, gave, contains, line_of, read_of, done_text, first_token, read_reply,
  dial_first_token,
}
use llms_chaos.Proxy.Dial.Handover.{EndsHeaders, fresh, stream_all, Hands, first_token-Hands}
use llms_chaos.Proxy.Dial.Success.{skip_headers_end}
use llms_chaos.Proxy.Dial.Lines.{
  Sends, marks, idles, sends_frame, Encodes, read_of-idle, read_of-mark, read_of-frame,
  payload_of-mark, payload_of-frame,
}

abbrev keep : Frame → List Frame → List Frame
keep f fs = if f.finish_reason =ₛ "" then f ∷ fs else fs

-- The frames with a token, without those that say why the worker finished.
abbrev pub with_token : List Frame → List Frame
with_token [] = []
with_token (f ∷ fs) = keep f (with_token fs)

-- What the client is sent for the frames.
abbrev pub written : Bool → List Frame → List Write
written true fs = chunks (with_token fs) ++ done_mark ∷ []
written false fs = completion (tokens (with_token fs)) ∷ []

module _ (encode : Frame → Bytes) (decode : Bytes → Option Frame) where
  sent_whole :
      (fs : List Frame) (body : List RawLine)
      → Sends encode fs body
      → All (Encodes encode decode) fs
      → (token_frames (map (read_of decode) body) ≡ with_token fs)
        × (has_done (map (read_of decode) body) ≡ true)
  sent_whole _ _ (marks raw rest t s) all = rw (read_of-mark decode raw t s) (refl, refl)
  sent_whole fs _ (idles {body = body} raw p s more) all =
      rw (read_of-idle decode raw p s) (sent_whole fs body more all)
  sent_whole _ _ (sends_frame {fs = fs} {body = body} f raw t s more) all =
      let (frames, marked) = sent_whole fs body more all.1 in
      rw (read_of-frame f raw t all.0 s) (ap (keep f) frames, marked)

  sent_chunks :
      (fs : List Frame) (body : List RawLine)
      → Sends encode fs body
      → All (Encodes encode decode) fs
      → (heard (map (read_of decode) body) ≡ with_token fs)
        × (completes (map (read_of decode) body) ≡ true)
  sent_chunks _ _ (marks raw rest t s) all = rw (read_of-mark decode raw t s) (refl, refl)
  sent_chunks fs _ (idles {body = body} raw p s more) all =
      rw (read_of-idle decode raw p s) (sent_chunks fs body more all)
  sent_chunks _ _ (sends_frame {fs = fs} {body = body} f raw t s more) all =
      let (frames, complete) = sent_chunks fs body more all.1 in
      rw (read_of-frame f raw t all.0 s) (ap (keep f) frames, complete)

  sent_first :
      (fs : List Frame) (body : List RawLine) (last_context : Option Error) (read_error : Error)
      → Sends encode fs body
      → All (Encodes encode decode) fs
      → (payload : Bytes) × (ctx_err : Option Error) × (rest : List RawLine) × (first_token body
            last_context read_error
          ≡ gave payload ctx_err rest)
  unfolding first_token
  sent_first _ _ last_context read_error (marks raw rest t s) all =
      (done_text, raw.after, rest, rw (s.0, payload_of-mark raw t) refl)
  sent_first fs _ last_context read_error (idles {body = body} raw p s more) all =
      let (payload, ctx_err, rest, e) = sent_first fs body last_context read_error more all in
      (payload, ctx_err, rest, rw (s.0, p) e)
  sent_first _ _ last_context read_error (sends_frame {body = body} f raw t s more) all =
      (encode f, raw.after, body, rw (s.0, payload_of-frame f raw t all.0) refl)

  -- The reply of a stream is the one for the frames.
  abbrev Writes : Bool → List Frame → Progress × Outcome → Type 0
  Writes stream fs (s, o) = (s.writes ≡ written stream fs) × (o.ok ≡ true)

  stream_all-Writes :
      (m : Metrics) (stream : Bool) (elapsed : ℕ) (e : Error) (fs : List Frame)
      (body : List RawLine)
      → Sends encode fs body
      → All (Encodes encode decode) fs
      → Writes stream fs (stream_all decode m stream elapsed e body)
  stream_all-Writes m false elapsed e fs body sends all =
      let (frames, marked) = sent_whole fs body sends all in
      let (w, ok) =
        loop-whole elapsed (fresh decode m false elapsed e) (map (read_of decode) body) e in
      (w ∙ rw (marked, frames) refl, ok ∙ marked)
  stream_all-Writes m true elapsed e fs body sends all =
      let (frames, complete) = sent_chunks fs body sends all in
      let (w, ok) =
        loop-chunked elapsed (fresh decode m true elapsed e) (map (read_of decode) body) e in
      (w ∙ rw (complete, frames) refl, ok ∙ complete)

-- Take a worker that can be dialled and is sent the request, and that replies with 200 in its status
-- line, header lines up to the first one that is `\r\n`, and a body that has each of some frames in a
-- line of its own, in order, then the done mark, and between them any lines without a payload; the
-- client stays until the done mark. If JSON gives those frames back from what the worker made of them,
-- the dial gives a payload with lines left to read, and the stream from there succeeds and writes exactly
-- the frames with a token: a chunk for each and the done mark, or one completion of all their tokens.
pub reply_delivered :
    (encode : Frame → Bytes) (decode : Bytes → Option Frame) (m : Metrics) (stream : Bool)
    (elapsed : ℕ) (e : Error) (w : Wire) (status : RawLine) (head body : List RawLine)
    (fs : List Frame)
    → w.dial_error ≡ none
    → w.write_error ≡ none
    → w.lines ≡ status ∷ (head ++ body)
    → contains (b'2' ∷ b'0' ∷ b'0' ∷ []) status.text ≡ true
    → EndsHeaders head
    → Sends encode fs body
    → All (Encodes encode decode) fs
    → (payload : Bytes) × (ctx_err : Option Error) × (rest : List RawLine) × (dial_first_token w
        ≡ gave payload ctx_err rest)
      × (let (s, o) =
            stream_from_first_token m stream elapsed
              (line_of decode payload)
              ctx_err
              (map (read_of decode) rest)
              e in
          (s.writes ≡ written stream fs) × (o.ok ≡ true))
unfolding dial_first_token read_reply
reply_delivered encode decode m stream elapsed e w status head body fs dialed sent lines good ends
      sends all =
    let (payload, ctx_err, rest, given) =
      sent_first encode decode fs body w.last_context w.read_error sends all in
    let handed =
      subst (Hands decode m stream elapsed e body) given
        (first_token-Hands decode m stream elapsed e body w.last_context w.read_error) in
    (
      payload,
      ctx_err,
      rest,
      rw (dialed, sent, lines, good)
          (skip_headers_end w.last_context w.read_error head body ends ∙ given),
      subst (Writes encode decode stream fs) (sym handed)
          (stream_all-Writes encode decode m stream elapsed e fs body sends all),
    )
