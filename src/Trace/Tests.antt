-- ===== src/Trace/Tests.antt =====
-- A trace header, and the theorems at concrete bytes.
use llms_chaos.Prelude.{◌≡◌, refl, true, [], ◌∷◌, none, some, arith, replicate}
use llms_chaos.Trace.{
  Bytes, Context, Entropy, encode, format, parse, rand_hex, from_request, congruential, split,
  parse_parts, decode, nibble, to_lower, all_zero,
}
use llms_chaos.Trace.Format.{parse-encode}
use llms_chaos.Trace.Propagation.{IsEntropy, from_request-continues}

abbrev header : Bytes
header = format (replicate 32 b'A') (replicate 16 b'3') (b'0' ∷ b'1' ∷ [])

abbrev context : Context
context = record { trace_id = replicate 32 b'a'; span_id = replicate 16 b'3'; sampled = true }

header_parsed : parse header ≡ some context
unfolding parse split parse_parts decode nibble to_lower all_zero
header_parsed = refl

-- A random source that never works.
abbrev broken : Entropy
broken = record { read = λ call n. none; unix_nano = λ call. 1700000000000000000 }

broken-IsEntropy : IsEntropy broken
broken-IsEntropy call n bs h = cc

fallback_bytes : congruential 2 1 ≡ 88 ∷ 192 ∷ []
unfolding congruential
fallback_bytes = refl

parse-encode_example :
    parse (format (encode (replicate 16 171)) (encode (replicate 8 7)) (encode (1 ∷ [])))
    ≡ some (record {
      trace_id = encode (replicate 16 171);
      span_id = encode (replicate 8 7);
      sampled = true;
    })
unfolding all_zero
parse-encode_example =
    parse-encode (replicate 16 171) (replicate 8 7) 1 (refl, omega arith, refl)
      (refl, omega arith, refl) (omega arith)

from_request-continues_example :
    ((from_request broken (some header)).0 ≡ replicate 32 b'a')
    × (parse (from_request broken (some header)).1
        ≡ some (record {
          trace_id = replicate 32 b'a';
          span_id = rand_hex broken 0 8;
          sampled = true;
        }))
unfolding all_zero congruential
from_request-continues_example =
    from_request-continues broken header context broken-IsEntropy header_parsed refl
