-- ===== src/Proxy/Stream.antt =====
-- `streamFromFirstToken` of gateway/internal/proxy/proxy.go. A line from the worker is given by what
-- the code makes of it: nothing, for a blank line or one without `data:`; the done mark; a payload that
-- decodes to a frame; or one that does not. What goes to the client is a list of writes, each with the
-- fields that differ from one write to the next.
pub mod Content
pub mod Headers
mod Tests
use llms_chaos.Prelude.{
  ℕ, ◌+◌, Bool, true, false, not, ◌&&◌, String, ◌=ₛ◌, List, [], ◌∷◌, ◌++◌, Option, none, some,
  if◌then◌else◌,
}
use llms_chaos.Prelude.Int.{ℤ}
use llms_chaos.Errors.{Error}
use llms_chaos.Middleware.{Metrics, end_request, observe_ttft}
use llms_chaos.Proxy.{Frame, Outcome}

pub data Line : Type 0 where
  skipped done garbled : Line
  frame : Frame → Line

-- A line, and the error of the client's context if that has ended when the code looks at it behind
-- the line.
abbrev pub Read : Type 0
Read = Line × Option Error

-- A `chat.completion.chunk` with its index and token, the closing mark of its end, or a whole
-- `chat.completion` whose content is the given pieces, one behind the other.
pub data Write : Type 0 where
  chunk : ℤ → String → Write
  done_mark : Write
  completion : List String → Write

pub record Progress : Type 0 where
  pub header_sent : Bool
  pub first : Bool
  pub collected : List String
  pub writes : List Write
  pub metrics : Metrics

-- `sendChunk`
abbrev send_chunk : Progress → Write → Progress
send_chunk s w = record s { header_sent = true; writes = s.writes ++ w ∷ [] }

-- `observeFirst`
abbrev observe_first : ℕ → Progress → Progress
observe_first elapsed s =
    if s.first then record s { metrics = observe_ttft s.metrics elapsed; first = false } else s

abbrev success : Outcome
success = record { ok = true; sent_headers = true; err = none }

-- The reply to the done mark.
abbrev finish : Bool → Progress → Progress
finish stream s =
    let s' =
      if stream
      then send_chunk s done_mark
      else record s { writes = s.writes ++ completion s.collected ∷ [] } in
    record s' { metrics = end_request s'.metrics true }

-- A token goes to the client's chunk, and the client's context is looked at behind it.
abbrev send_token : Bool → Progress → Frame → Option Error → Progress × Option Outcome
send_token false s f ctx_err = (s, none)
send_token true s f none = (send_chunk s (chunk f.index f.token), none)
send_token true s f (some e) = (
  send_chunk s (chunk f.index f.token),
  some (record { ok = false; sent_headers = true; err = some e }),
)

-- One line; with an outcome the function returns.
unfoldable pub handle : Bool → ℕ → Progress → Line → Option Error → Progress × Option Outcome
handle stream elapsed s skipped ctx_err = (s, none)
handle stream elapsed s garbled ctx_err = (s, none)
handle stream elapsed s done ctx_err = (finish stream s, some success)
handle stream elapsed s (frame f) ctx_err =
    let s' = observe_first elapsed s in
    if f.finish_reason =ₛ ""
    then send_token stream (record s' { collected = s'.collected ++ f.token ∷ [] }) f ctx_err
    else (s', none)

-- The end of the worker's lines is an error of `ReadString`.
abbrev pub at_end : Progress → Error → Outcome
at_end s e =
    if s.header_sent
    then record { ok = false; sent_headers = true; err = some e }
    else record { ok = false; sent_headers = false; err = some e }

unfoldable pub loop : Bool → ℕ → Progress → List Read → Error → Progress × Outcome
loop stream elapsed s [] e = (s, at_end s e)
loop stream elapsed s ((line, ctx_err) ∷ reads) e =
    let (s', out) = handle stream elapsed s line ctx_err in
    elim out [ some o ↦ (s', o) | none ↦ loop stream elapsed s' reads e ]

-- The first payload is handled as the later ones are; it is never a skipped line.
unfoldable pub stream_from_first_token :
    Metrics → Bool → ℕ → Line → Option Error → List Read → Error → Progress × Outcome
unfolding loop
stream_from_first_token metrics stream elapsed first ctx_err reads e =
    loop stream elapsed
      (record { header_sent = false; first = true; collected = []; writes = []; metrics = metrics })
      ((first, ctx_err) ∷ reads) e
