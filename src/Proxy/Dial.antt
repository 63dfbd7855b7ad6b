-- ===== src/Proxy/Dial.antt =====
-- `dialFirstToken` of gateway/internal/proxy/proxy.go, and how the payload of a line is read there and
-- in `streamFromFirstToken`. A line is given by its bytes, its newline included, and the white space
-- that is trimmed is that of ASCII. The decoding of a payload's JSON is a parameter.
pub mod Handover
pub mod Success
pub mod Lines
pub mod Delivered
mod Tests
use llms_chaos.Prelude.{
  ℕ, Bool, true, false, ◌&&◌, ◌||◌, List, [], ◌∷◌, Option, none, some, map, ltb, leb, ◌==◌,
  if◌then◌else◌,
}
use llms_chaos.Errors.{Error, failed}
use llms_chaos.Proxy.{Frame}
use llms_chaos.Proxy.Stream.{Line, skipped, done, garbled, frame, Read}

abbrev pub Bytes : Type 0
Bytes = List ℕ

-- A line from the worker, and what the context's error is when the code looks at it before the line is
-- read, which it does in front of a token, and behind the line, which it does when it streams.
pub record RawLine : Type 0 where
  pub text : Bytes
  pub before : Option Error
  pub after : Option Error

-- The errors of the dialer and of the write, if any, the lines that the worker sends, the error of the
-- read behind them and that of the context in front of that read.
pub record Wire : Type 0 where
  pub dial_error : Option Error
  pub write_error : Option Error
  pub lines : List RawLine
  pub read_error : Error
  pub last_context : Option Error

-- A connection that has given a payload, with the rest of its lines, or an error.
pub data FirstToken : Type 0 where
  gave : Bytes → Option Error → List RawLine → FirstToken
  fails : Error → FirstToken

unfoldable pub is_space : ℕ → Bool
is_space c = c == 32 || leb 9 c && leb c 13

unfoldable pub trim_left : Bytes → Bytes
trim_left [] = []
trim_left (c ∷ s) = if is_space c then trim_left s else c ∷ s

abbrev pub push_unless_space : ℕ → Bytes → Bytes
push_unless_space c [] = if is_space c then [] else c ∷ []
push_unless_space c (d ∷ s) = c ∷ d ∷ s

unfoldable pub trim_right : Bytes → Bytes
trim_right [] = []
trim_right (c ∷ s) = push_unless_space c (trim_right s)

unfoldable pub trim_space : Bytes → Bytes
trim_space s = trim_right (trim_left s)

-- What stands behind a prefix.
unfoldable pub cut_prefix : Bytes → Bytes → Option Bytes
cut_prefix [] s = some s
cut_prefix (p ∷ ps) [] = none
cut_prefix (p ∷ ps) (c ∷ s) = if c == p then cut_prefix ps s else none

abbrev pub is_some {ℓ} : {A : Type ℓ} → Option A → Bool
is_some none = false
is_some (some a) = true

unfoldable pub contains : Bytes → Bytes → Bool
contains word [] = is_some (cut_prefix word [])
contains word (c ∷ s) = is_some (cut_prefix word (c ∷ s)) || contains word s

abbrev pub data_prefix : Bytes
data_prefix = b'd' ∷ b'a' ∷ b't' ∷ b'a' ∷ b':' ∷ []

abbrev pub trimmed_rest : Option Bytes → Option Bytes
trimmed_rest none = none
trimmed_rest (some rest) = some (trim_space rest)

abbrev pub payload_in : Bytes → Option Bytes
payload_in [] = none
payload_in (c ∷ s) = trimmed_rest (cut_prefix data_prefix (c ∷ s))

-- The payload of a line, if it is not blank and has the prefix `data:`.
unfoldable pub payload_of : Bytes → Option Bytes
payload_of line = payload_in (trim_space line)

-- Go compares two texts by their bytes.
unfoldable pub same_bytes : Bytes → Bytes → Bool
same_bytes [] [] = true
same_bytes [] (d ∷ t) = false
same_bytes (c ∷ s) [] = false
same_bytes (c ∷ s) (d ∷ t) = if c == d then same_bytes s t else false

abbrev pub done_text : Bytes
done_text = b'[' ∷ b'D' ∷ b'O' ∷ b'N' ∷ b'E' ∷ b']' ∷ []

module _ (decode : Bytes → Option Frame) where
  abbrev pub frame_or_garbled : Option Frame → Line
  frame_or_garbled none = garbled
  frame_or_garbled (some f) = frame f

  -- What the stream makes of a payload and of a line.
  unfoldable pub line_of : Bytes → Line
  line_of payload = if same_bytes payload done_text then done else frame_or_garbled (decode payload)

  abbrev pub line_or_skipped : Option Bytes → Line
  line_or_skipped none = skipped
  line_or_skipped (some payload) = line_of payload

  unfoldable pub read_of : RawLine → Read
  read_of raw = (line_or_skipped (payload_of raw.text), raw.after)

-- The last loop: the context, the next line, and its payload if it has one.
abbrev token_or_next :
    RawLine → List RawLine → Option Error → Option Bytes → FirstToken → FirstToken
token_or_next raw rest (some e) payload next = fails e
token_or_next raw rest none none next = next
token_or_next raw rest none (some payload) next = gave payload raw.after rest

unfoldable pub first_token : List RawLine → Option Error → Error → FirstToken
first_token [] none read_error = fails read_error
first_token [] (some e) read_error = fails e
first_token (raw ∷ rest) last_context read_error =
    token_or_next raw rest raw.before (payload_of raw.text)
      (first_token rest last_context read_error)

-- The loop over the headers, up to a line that is `\r\n`.
unfoldable pub skip_headers : List RawLine → Option Error → Error → FirstToken
skip_headers [] last_context read_error = fails read_error
skip_headers (raw ∷ rest) last_context read_error =
    if same_bytes raw.text (13 ∷ 10 ∷ [])
    then first_token rest last_context read_error
    else skip_headers rest last_context read_error

unfoldable pub read_reply : List RawLine → Option Error → Error → FirstToken
read_reply [] last_context read_error = fails read_error
read_reply (status ∷ rest) last_context read_error =
    if contains (b'2' ∷ b'0' ∷ b'0' ∷ []) status.text
    then skip_headers rest last_context read_error
    else fails failed

abbrev sent : Option Error → Option Error → FirstToken → FirstToken
sent (some e) write_error reply = fails e
sent none (some e) reply = fails e
sent none none reply = reply

unfoldable pub dial_first_token : Wire → FirstToken
dial_first_token w =
    sent w.dial_error w.write_error (read_reply w.lines w.last_context w.read_error)
