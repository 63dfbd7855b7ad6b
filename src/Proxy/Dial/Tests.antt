-- ===== src/Proxy/Dial/Tests.antt =====
-- A dial of a worker that answers, and the theorem at its lines.
use Prim.Native.Char.{code}
use llms_chaos.Prelude.{
  ◌≡◌, refl, String, ◌=ₛ◌, true, List, map, if◌then◌else◌, [], ◌∷◌, ◌++◌, Option, none, some, All,
}
use llms_chaos.Prelude.Int.{pos}
use llms_chaos.Errors.{Error, failed}
use llms_chaos.Middleware.{new_metrics}
use llms_chaos.Proxy.{Frame}
use llms_chaos.Proxy.Stream.{stream_from_first_token}
use llms_chaos.Proxy.Dial.{
  line_of, read_of, Bytes, RawLine, Wire, gave, dial_first_token, read_reply, skip_headers,
  first_token, contains, cut_prefix, same_bytes, payload_of, trim_space, trim_left, trim_right,
  is_space,
}
use llms_chaos.Proxy.Dial.Handover.{HandsOver, dial-eq-stream}
use llms_chaos.Proxy.Dial.Success.{dial_gives}
use llms_chaos.Proxy.Dial.Lines.{Encodes, Sends, marks, idles, sends_frame}
use llms_chaos.Proxy.Dial.Delivered.{written, reply_delivered}

abbrev codes : String → Bytes
codes String.[] = []
codes (String.◌∷◌ c s) = code c ∷ codes s

-- A line that is read while the client is there.
abbrev line : String → RawLine
line text = record { text = codes text ++ 13 ∷ 10 ∷ []; before = none; after = none }

abbrev decode_all : Bytes → Option Frame
decode_all payload = some (record { token = "hi"; index = pos 0; finish_reason = "" })

abbrev wire : Wire
wire = record {
  dial_error = none;
  write_error = none;
  lines =
      line "HTTP/1.1 200 OK"
      ∷ line "Connection: close"
      ∷ line ""
      ∷ line ""
      ∷ line "data: 1"
      ∷ line ""
      ∷ line "data: [DONE]"
      ∷ [];
  read_error = failed;
  last_context = none;
}

wire_gives : dial_first_token wire ≡ gave (codes "1") none (line "" ∷ line "data: [DONE]" ∷ [])
unfolding dial_first_token read_reply skip_headers first_token contains cut_prefix same_bytes
    payload_of trim_space trim_left trim_right is_space
wire_gives = refl

dial-eq-stream_example :
    HandsOver decode_all new_metrics true 7 failed wire.lines
      (gave (codes "1") none (line "" ∷ line "data: [DONE]" ∷ []))
dial-eq-stream_example =
    dial-eq-stream decode_all new_metrics true 7 failed wire (codes "1") none
      (line "" ∷ line "data: [DONE]" ∷ []) wire_gives

dial_gives_example :
    dial_first_token wire ≡ gave (codes "1") none (line "" ∷ line "data: [DONE]" ∷ [])
unfolding contains cut_prefix same_bytes payload_of trim_space trim_left trim_right is_space
dial_gives_example =
    dial_gives wire (line "HTTP/1.1 200 OK") (line "Connection: close" ∷ line "" ∷ [])
      (line "" ∷ []) (line "data: 1") (line "" ∷ line "data: [DONE]" ∷ []) (codes "1") refl refl
      refl refl (refl, refl) ((refl, refl), tt) refl refl

-- Two tokens and the end, and an encoding that tells them apart.
abbrev hi : Frame
hi = record { token = "hi"; index = pos 0; finish_reason = "" }

abbrev there : Frame
there = record { token = "there"; index = pos 1; finish_reason = "" }

abbrev stop : Frame
stop = record { token = ""; index = pos 2; finish_reason = "stop" }

abbrev encode_three : Frame → Bytes
encode_three f =
    if f.token =ₛ "hi" then codes "1" else (if f.token =ₛ "there" then codes "2" else codes "3")

abbrev decode_three : Bytes → Option Frame
decode_three payload =
    if same_bytes payload (codes "1")
    then some hi
    else (if same_bytes payload (codes "2") then some there else some stop)

three_frames-Encodes : All (Encodes encode_three decode_three) (hi ∷ there ∷ stop ∷ [])
unfolding same_bytes trim_right is_space
three_frames-Encodes = (
  record { decoded = refl; trimmed = (refl, refl); not_done = refl },
  (
    record { decoded = refl; trimmed = (refl, refl); not_done = refl },
    (record { decoded = refl; trimmed = (refl, refl); not_done = refl }, tt),
  ),
)

-- A line as the worker writes it.
abbrev sse : String → RawLine
sse text = record { text = codes text ++ 10 ∷ []; before = none; after = none }

abbrev three_frames : List RawLine
three_frames =
    sse "data: 1"
    ∷ sse ""
    ∷ sse "data: 2"
    ∷ sse ""
    ∷ sse "data: 3"
    ∷ sse ""
    ∷ sse "data: [DONE]"
    ∷ sse ""
    ∷ []

three_frames-Sends : Sends encode_three (hi ∷ there ∷ stop ∷ []) three_frames
unfolding payload_of trim_space trim_left trim_right is_space cut_prefix
three_frames-Sends =
    sends_frame hi _ refl (refl, refl)
      (idles _ refl (refl, refl)
        (sends_frame there _ refl (refl, refl)
          (idles _ refl (refl, refl)
            (sends_frame stop _ refl (refl, refl)
              (idles _ refl (refl, refl) (marks _ _ refl (refl, refl)))))))

abbrev answered : Wire
answered = record {
  dial_error = none;
  write_error = none;
  lines = line "HTTP/1.1 200 OK" ∷ line "Connection: close" ∷ line "" ∷ three_frames;
  read_error = failed;
  last_context = none;
}

reply_delivered_example :
    (payload : Bytes) × (ctx_err : Option Error) × (rest : List RawLine) × (dial_first_token
        answered
      ≡ gave payload ctx_err rest)
    × (let (s, o) =
          stream_from_first_token new_metrics true 7
            (line_of decode_three payload)
            ctx_err
            (map (read_of decode_three) rest)
            failed in
        (s.writes ≡ written true (hi ∷ there ∷ [])) × (o.ok ≡ true))
unfolding contains cut_prefix same_bytes
reply_delivered_example =
    reply_delivered encode_three decode_three new_metrics true 7 failed answered
      (line "HTTP/1.1 200 OK") (line "Connection: close" ∷ line "" ∷ []) three_frames
      (hi ∷ there ∷ stop ∷ []) refl refl refl refl (refl, refl) three_frames-Sends
      three_frames-Encodes
