-- ===== src/Proxy/Dial/Handover.antt =====
-- The first token and the stream behind it are read from one connection.
use llms_chaos.Prelude.{
  ℕ, ◌≡◌, refl, sym, ap, subst, ◌∙◌, Bool, true, false, List, [], ◌∷◌, ◌++◌, Option, none, some,
  map, if_elim,
}
use llms_chaos.Errors.{Error, failed}
use llms_chaos.Middleware.{Metrics}
use llms_chaos.Proxy.{Frame, Outcome}
use llms_chaos.Proxy.Stream.{Progress, loop, handle, stream_from_first_token}
use llms_chaos.Proxy.Dial.{
  Bytes, RawLine, Wire, FirstToken, gave, fails, payload_of, same_bytes, contains, line_of, read_of,
  line_or_skipped, token_or_next, first_token, skip_headers, read_reply, sent, dial_first_token,
}

abbrev pub crlf : Bytes
crlf = 13 ∷ 10 ∷ []

-- Header lines, of which the last one, and no other, is `\r\n`.
abbrev pub EndsHeaders : List RawLine → Type 0
EndsHeaders [] = ⊥
EndsHeaders (raw ∷ []) = same_bytes raw.text crlf ≡ true
EndsHeaders (raw ∷ next ∷ head) = (same_bytes raw.text crlf ≡ false) × EndsHeaders (next ∷ head)

one_more_header :
    (raw : RawLine) (head : List RawLine)
    → same_bytes raw.text crlf ≡ false
    → EndsHeaders head
    → EndsHeaders (raw ∷ head)
one_more_header raw [] other ends = absurd ends
one_more_header raw (next ∷ head) other ends = (other, ends)

read_payload :
    (decode : Bytes → Option Frame) (raw : RawLine) (payload : Option Bytes)
    → payload_of raw.text ≡ payload
    → read_of decode raw ≡ (line_or_skipped decode payload, raw.after)
unfolding read_of
read_payload decode raw payload p = ap (λ o. (line_or_skipped decode o, raw.after)) p

module _ (decode : Bytes → Option Frame) (metrics : Metrics) (stream : Bool) (elapsed : ℕ)
    (e : Error) where
  abbrev pub fresh : Progress
  fresh = record {
    header_sent = false;
    first = true;
    collected = [];
    writes = [];
    metrics = metrics;
  }

  -- The reply from the given body lines, read as the stream reads lines.
  abbrev pub stream_all : List RawLine → Progress × Outcome
  stream_all body = loop stream elapsed fresh (map (read_of decode) body) e

  -- The payload is that of a line of the body; to hand it on with the lines behind it comes to the
  -- same as to stream the whole body.
  abbrev pub Hands : List RawLine → FirstToken → Type 0
  Hands body (fails err) = Unit
  Hands body (gave payload ctx_err rest) =
      stream_from_first_token metrics stream elapsed (line_of decode payload) ctx_err
        (map (read_of decode) rest) e
      ≡ stream_all body

  token-Hands :
      (raw : RawLine) (rest : List RawLine) (before : Option Error) (payload : Option Bytes)
      (next : FirstToken)
      → payload_of raw.text ≡ payload
      → Hands rest next
      → Hands (raw ∷ rest) (token_or_next raw rest before payload next)
  unfolding loop handle stream_from_first_token
  token-Hands raw rest (some err) payload next p h = tt
  token-Hands raw rest none none (fails err) p h = tt
  token-Hands raw rest none none (gave q c more) p h =
      h
      ∙ sym (
          ap (λ r. loop stream elapsed fresh (r ∷ map (read_of decode) rest) e)
            (read_payload decode raw none p))
  token-Hands raw rest none (some payload) next p h = sym (
      ap (λ r. loop stream elapsed fresh (r ∷ map (read_of decode) rest) e)
        (read_payload decode raw (some payload) p))

  pub first_token-Hands :
      (body : List RawLine) (last_context : Option Error) (read_error : Error)
      → Hands body (first_token body last_context read_error)
  unfolding first_token
  first_token-Hands [] none read_error = tt
  first_token-Hands [] (some err) read_error = tt
  first_token-Hands (raw ∷ rest) last_context read_error =
      token-Hands raw rest raw.before (payload_of raw.text) _ refl
        (first_token-Hands rest last_context read_error)

  -- The body begins behind the header lines.
  abbrev HandsBehind : List RawLine → FirstToken → Type 0
  HandsBehind lines (fails err) = Unit
  HandsBehind lines (gave payload ctx_err rest) =
      (head : List RawLine) × (body : List RawLine) × (lines ≡ head ++ body)
      × EndsHeaders head
      × Hands body (gave payload ctx_err rest)

  behind_here :
      (raw : RawLine) (rest : List RawLine) (t : FirstToken)
      → same_bytes raw.text crlf ≡ true
      → Hands rest t
      → HandsBehind (raw ∷ rest) t
  behind_here raw rest (fails err) same h = tt
  behind_here raw rest (gave payload c more) same h = (raw ∷ [], rest, refl, same, h)

  behind_later :
      (raw : RawLine) (rest : List RawLine) (t : FirstToken)
      → same_bytes raw.text crlf ≡ false
      → HandsBehind rest t
      → HandsBehind (raw ∷ rest) t
  behind_later raw rest (fails err) other h = tt
  behind_later raw rest (gave payload c more) other (head, body, e', ends, h) =
      (raw ∷ head, body, ap (λ lines. raw ∷ lines) e', one_more_header raw head other ends, h)

  skip_headers-HandsBehind :
      (lines : List RawLine) (last_context : Option Error) (read_error : Error)
      → HandsBehind lines (skip_headers lines last_context read_error)
  unfolding skip_headers
  skip_headers-HandsBehind [] last_context read_error = tt
  skip_headers-HandsBehind (raw ∷ rest) last_context read_error =
      if_elim (HandsBehind (raw ∷ rest)) (same_bytes raw.text crlf)
        (first_token rest last_context read_error) (skip_headers rest last_context read_error)
        (λ same. behind_here raw rest _ same (first_token-Hands rest last_context read_error))
        (λ other.
          behind_later raw rest _ other (skip_headers-HandsBehind rest last_context read_error))

  -- The status line has 200 in it, and the header lines follow.
  abbrev pub HandsOver : List RawLine → FirstToken → Type 0
  HandsOver lines (fails err) = Unit
  HandsOver lines (gave payload ctx_err rest) =
      (status : RawLine) × (head : List RawLine) × (body : List RawLine) × (lines
        ≡ status ∷ (head ++ body))
      × (contains (b'2' ∷ b'0' ∷ b'0' ∷ []) status.text ≡ true)
      × EndsHeaders head
      × Hands body (gave payload ctx_err rest)

  with_status :
      (status : RawLine) (rest : List RawLine) (t : FirstToken)
      → contains (b'2' ∷ b'0' ∷ b'0' ∷ []) status.text ≡ true
      → HandsBehind rest t
      → HandsOver (status ∷ rest) t
  with_status status rest (fails err) good h = tt
  with_status status rest (gave payload c more) good (head, body, e', ends, h) =
      (status, head, body, ap (λ lines. status ∷ lines) e', good, ends, h)

  read_reply-HandsOver :
      (lines : List RawLine) (last_context : Option Error) (read_error : Error)
      → HandsOver lines (read_reply lines last_context read_error)
  unfolding read_reply
  read_reply-HandsOver [] last_context read_error = tt
  read_reply-HandsOver (status ∷ rest) last_context read_error =
      if_elim (HandsOver (status ∷ rest)) (contains (b'2' ∷ b'0' ∷ b'0' ∷ []) status.text)
        (skip_headers rest last_context read_error) (fails failed)
        (λ good.
          with_status status rest _ good (skip_headers-HandsBehind rest last_context read_error))
        (λ _. tt)

  sent-HandsOver :
      (lines : List RawLine) (dial_error write_error : Option Error) (t : FirstToken)
      → HandsOver lines t
      → HandsOver lines (sent dial_error write_error t)
  sent-HandsOver lines (some err) write_error t h = tt
  sent-HandsOver lines none (some err) t h = tt
  sent-HandsOver lines none none t h = h

-- If the dial gives a first payload, the worker's status line has 200 in it, and the body begins behind
-- the first header line that is `\r\n`. To stream from that payload and the lines left on the
-- connection gives the reply, the writes and the counters that streaming every line of the body from
-- its start would: no line is lost or read twice on the way.
pub dial-eq-stream :
    (decode : Bytes → Option Frame) (metrics : Metrics) (stream : Bool) (elapsed : ℕ) (e : Error)
    (w : Wire) (payload : Bytes) (ctx_err : Option Error) (rest : List RawLine)
    → dial_first_token w ≡ gave payload ctx_err rest
    → (status : RawLine) × (head : List RawLine) × (body : List RawLine) × (w.lines
        ≡ status ∷ (head ++ body))
      × (contains (b'2' ∷ b'0' ∷ b'0' ∷ []) status.text ≡ true)
      × EndsHeaders head
      × (stream_from_first_token metrics stream elapsed
            (line_of decode payload)
            ctx_err
            (map (read_of decode) rest)
            e
          ≡ stream_all decode metrics stream elapsed e body)
unfolding dial_first_token
dial-eq-stream decode metrics stream elapsed e w payload ctx_err rest given =
    subst (HandsOver decode metrics stream elapsed e w.lines) given (
      sent-HandsOver decode metrics stream elapsed e w.lines w.dial_error w.write_error
        (read_reply w.lines w.last_context w.read_error)
        (read_reply-HandsOver decode metrics stream elapsed e w.lines w.last_context w.read_error))
