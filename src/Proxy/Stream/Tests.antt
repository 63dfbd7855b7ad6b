-- ===== src/Proxy/Stream/Tests.antt =====
-- Streams of three lines, and the theorems at them.
use llms_chaos.Prelude.{◌≡◌, refl, true, false, String, List, [], ◌∷◌, none, some}
use llms_chaos.Prelude.Int.{pos}
use llms_chaos.Errors.{canceled, failed}
use llms_chaos.Middleware.{new_metrics}
use llms_chaos.Proxy.Stream.{
  Line, done, skipped, frame, Read, chunk, completion, handle, stream_from_first_token,
}
use llms_chaos.Proxy.Stream.Content.{whole_reply, chunked_reply}

abbrev token : String → Line
token t = frame (record { token = t; index = pos 0; finish_reason = "" })

abbrev lines : List Read
lines = (skipped, none) ∷ (token "there", none) ∷ (done, none) ∷ []

whole :
    (stream_from_first_token new_metrics false 5 (token "hi ") none lines failed).0.writes
    ≡ completion ("hi " ∷ "there" ∷ []) ∷ []
unfolding stream_from_first_token handle new_metrics
whole = refl

whole_reply_example :
    (stream_from_first_token new_metrics false 5 (token "hi ") none lines failed).0.writes
    ≡ completion ("hi " ∷ "there" ∷ []) ∷ []
whole_reply_example = (whole_reply new_metrics 5 (token "hi ") none lines failed).0

-- The client leaves behind the first token.
chunked_reply_example :
    (stream_from_first_token new_metrics true 5 (token "hi ") (some canceled) lines failed).0.writes
    ≡ chunk (pos 0) "hi " ∷ []
chunked_reply_example = (chunked_reply new_metrics 5 (token "hi ") (some canceled) lines failed).0

cut :
    (stream_from_first_token new_metrics false 5 (token "hi ") none [] failed).1.sent_headers
    ≡ false
unfolding stream_from_first_token handle new_metrics
cut = refl
