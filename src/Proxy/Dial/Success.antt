-- ===== src/Proxy/Dial/Success.antt =====
-- When a dial succeeds.
use llms_chaos.Prelude.{◌≡◌, refl, ◌∙◌, true, List, [], ◌∷◌, ◌++◌, Option, none, some, All}
use llms_chaos.Errors.{Error}
use llms_chaos.Proxy.Dial.{
  Bytes, RawLine, Wire, gave, payload_of, contains, first_token, skip_headers, read_reply,
  dial_first_token,
}
use llms_chaos.Proxy.Dial.Handover.{EndsHeaders}

-- A line of the body without a payload, read while the client is there.
abbrev pub IsIdle : RawLine → Type 0
IsIdle raw = (raw.before ≡ none) × (payload_of raw.text ≡ none)

module _ (last_context : Option Error) (read_error : Error) where
  first_token_idle :
      (idle : List RawLine) (raw : RawLine) (rest : List RawLine) (payload : Bytes)
      → All IsIdle idle
      → raw.before ≡ none
      → payload_of raw.text ≡ some payload
      → first_token (idle ++ raw ∷ rest) last_context read_error ≡ gave payload raw.after rest
  unfolding first_token
  first_token_idle [] raw rest payload all before p = rw (before, p) refl
  first_token_idle (blank ∷ idle) raw rest payload all before p =
      rw (all.0.0, all.0.1) (first_token_idle idle raw rest payload all.1 before p)

  pub skip_headers_end :
      (head body : List RawLine)
      → EndsHeaders head
      → skip_headers (head ++ body) last_context read_error
        ≡ first_token body last_context read_error
  unfolding skip_headers
  skip_headers_end [] body ends = absurd ends
  skip_headers_end (raw ∷ []) body ends = rw ends refl
  skip_headers_end (raw ∷ next ∷ head) body ends =
      rw ends.0 (skip_headers_end (next ∷ head) body ends.1)

-- If the connection is made and the request written, a reply with 200 in its status line, header lines
-- up to the first one that is `\r\n`, and a line with a payload behind others without one, gives that
-- payload and the lines behind it, unless the client leaves before the line is read.
pub dial_gives :
    (w : Wire) (status : RawLine) (head idle : List RawLine) (raw : RawLine) (rest : List RawLine)
    (payload : Bytes)
    → w.dial_error ≡ none
    → w.write_error ≡ none
    → w.lines ≡ status ∷ (head ++ (idle ++ raw ∷ rest))
    → contains (b'2' ∷ b'0' ∷ b'0' ∷ []) status.text ≡ true
    → EndsHeaders head
    → All IsIdle idle
    → raw.before ≡ none
    → payload_of raw.text ≡ some payload
    → dial_first_token w ≡ gave payload raw.after rest
unfolding dial_first_token read_reply
dial_gives w status head idle raw rest payload dialed written lines good ends all before p =
    rw (dialed, written, lines, good)
      (skip_headers_end w.last_context w.read_error head (idle ++ raw ∷ rest) ends
        ∙ first_token_idle w.last_context w.read_error idle raw rest payload all before p)
