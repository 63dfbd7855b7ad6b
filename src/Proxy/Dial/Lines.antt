-- ===== src/Proxy/Dial/Lines.antt =====
-- The lines in which worker/app/main.py sends its frames, and what gateway/internal/proxy/proxy.go reads
-- from them.
use llms_chaos.Prelude.{ℕ, ◌≡◌, refl, ap, ◌∙◌, false, List, [], ◌∷◌, ◌++◌, Option, none, some}
use llms_chaos.Proxy.{Frame}
use llms_chaos.Proxy.Stream.{skipped, done, frame}
use llms_chaos.Proxy.Dial.{
  Bytes, RawLine, is_space, trim_left, trim_right, trim_space, push_unless_space, cut_prefix,
  data_prefix, payload_in, payload_of, same_bytes, done_text, line_of, read_of,
}

-- A text that is not empty and neither starts nor ends with white space.
abbrev pub IsTrimmed : Bytes → Type 0
IsTrimmed [] = ⊥
IsTrimmed (c ∷ s) = (is_space c ≡ false) × (trim_right (c ∷ s) ≡ c ∷ s)

-- `data: ` with a payload and a newline.
abbrev pub data_line : Bytes → Bytes
data_line payload = data_prefix ++ 32 ∷ (payload ++ 10 ∷ [])

trim_right-append : (s : Bytes) → trim_right (s ++ 10 ∷ []) ≡ trim_right s
unfolding trim_right is_space
trim_right-append [] = refl
trim_right-append (c ∷ s) = ap (push_unless_space c) (trim_right-append s)

-- The text of a line without its newline.
trim_space-data_line : (p : Bytes) → IsTrimmed p → trim_space (data_line p) ≡ data_prefix ++ 32 ∷ p
unfolding trim_space trim_left is_space trim_right
trim_space-data_line [] h = absurd h
trim_space-data_line (c ∷ s) h =
    trim_right-append (data_prefix ++ 32 ∷ (c ∷ s))
    ∙ ap
        (λ t. push_unless_space b'd' (
          push_unless_space b'a' (
            push_unless_space b't'
              (push_unless_space b'a' (push_unless_space b':' (push_unless_space 32 t))))))
        h.1

drop_space : (c : ℕ) (s : Bytes) → is_space c ≡ false → trim_left (32 ∷ c ∷ s) ≡ c ∷ s
unfolding trim_left is_space
drop_space c s h = rw h refl

trim_space-padded : (p : Bytes) → IsTrimmed p → trim_space (32 ∷ p) ≡ p
unfolding trim_space
trim_space-padded [] h = absurd h
trim_space-padded (c ∷ s) h = ap trim_right (drop_space c s h.0) ∙ h.1

pub payload_of-data_line : (p : Bytes) → IsTrimmed p → payload_of (data_line p) ≡ some p
unfolding payload_of cut_prefix
payload_of-data_line p h =
    ap payload_in (trim_space-data_line p h) ∙ ap some (trim_space-padded p h)

-- A line that is read while the client is there.
abbrev pub Stays : RawLine → Type 0
Stays raw = (raw.before ≡ none) × (raw.after ≡ none)

-- A body that sends the given frames and the done mark, each in a line of its own, among lines without
-- a payload.
pub data Sends (encode : Frame → Bytes) : List Frame → List RawLine → Type 0 where
  marks :
      (raw : RawLine) (rest : List RawLine)
      → raw.text ≡ data_line done_text
      → Stays raw
      → Sends encode [] (raw ∷ rest)
  idles :
      {fs : List Frame} {body : List RawLine} (raw : RawLine)
      → payload_of raw.text ≡ none
      → Stays raw
      → Sends encode fs body
      → Sends encode fs (raw ∷ body)
  sends_frame :
      {fs : List Frame} {body : List RawLine} (f : Frame) (raw : RawLine)
      → raw.text ≡ data_line (encode f)
      → Stays raw
      → Sends encode fs body
      → Sends encode (f ∷ fs) (raw ∷ body)

-- What the worker's encoding of a frame must be: read back by the decoder, free of white space at its
-- ends, and not the done mark.
pub record Encodes (encode : Frame → Bytes) (decode : Bytes → Option Frame) (f : Frame)
    : Type 0 where
  pub decoded : decode (encode f) ≡ some f
  pub trimmed : IsTrimmed (encode f)
  pub not_done : same_bytes (encode f) done_text ≡ false

done_payload : payload_of (data_line done_text) ≡ some done_text
unfolding payload_of trim_space trim_left trim_right is_space cut_prefix
done_payload = refl

pub read_of-idle :
    (decode : Bytes → Option Frame) (raw : RawLine)
    → payload_of raw.text ≡ none
    → Stays raw
    → read_of decode raw ≡ (skipped, none)
unfolding read_of
read_of-idle decode raw p s = rw (p, s.1) refl

pub payload_of-mark :
    (raw : RawLine) → raw.text ≡ data_line done_text → payload_of raw.text ≡ some done_text
payload_of-mark raw t = ap payload_of t ∙ done_payload

pub read_of-mark :
    (decode : Bytes → Option Frame) (raw : RawLine)
    → raw.text ≡ data_line done_text
    → Stays raw
    → read_of decode raw ≡ (done, none)
unfolding read_of line_of same_bytes
read_of-mark decode raw t s = rw (payload_of-mark raw t, s.1) refl

module _ {encode : Frame → Bytes} {decode : Bytes → Option Frame} (f : Frame) (raw : RawLine)
    (text : raw.text ≡ data_line (encode f)) (enc : Encodes encode decode f) where
  pub payload_of-frame : payload_of raw.text ≡ some (encode f)
  payload_of-frame = ap payload_of text ∙ payload_of-data_line (encode f) enc.trimmed

  pub read_of-frame : Stays raw → read_of decode raw ≡ (frame f, none)
  unfolding read_of line_of
  read_of-frame s = rw (payload_of-frame, s.1, enc.not_done, enc.decoded) refl
