-- ===== src/Trace/Format.antt =====
-- What `Parse` of gateway/internal/trace/trace.go reads from a header that is put together from parts.
use llms_chaos.Prelude.{
  ℕ, ◌*◌, ◌%◌, ◌<◌, ◌≡◌, refl, ap, ◌∙◌, false, [], ◌∷◌, ◌++◌, some, arith, All, length, ◌==◌,
  get_or,
}
use llms_chaos.Trace.{
  Bytes, split, nibble, decode, encode, to_lower, all_zero, parse, parse_parts, format,
}
use llms_chaos.Trace.Hex.{
  decode-encode, length-encode, to_lower-encode, decode-NoDash, split_part, split_last,
}

-- The bytes that some text of so many digits stands for.
pub record IsHex (digits : ℕ) (text bs : Bytes) : Type 0 where
  pub decoded : decode text ≡ some bs
  pub sized : length text ≡ digits

pub encode-IsHex :
    (bs : Bytes) (digits : ℕ)
    → All (λ b. b < 256) bs
    → 2 * length bs ≡ digits
    → IsHex digits (encode bs) bs
encode-IsHex bs digits bytes size = record {
  decoded = decode-encode bs bytes;
  sized = length-encode bs ∙ size;
}

split-IsHex :
    (tid sid flags bt bs bf : Bytes)
    → IsHex 32 tid bt
    → IsHex 16 sid bs
    → IsHex 2 flags bf
    → split b'-' (format tid sid flags) ≡ (b'0' ∷ b'0' ∷ []) ∷ tid ∷ sid ∷ flags ∷ []
split-IsHex tid sid flags bt bs bf t s f =
    split_part (b'0' ∷ b'0' ∷ []) (tid ++ b'-' ∷ (sid ++ b'-' ∷ flags)) (refl, (refl, tt))
    ∙ ap (λ parts. (b'0' ∷ b'0' ∷ []) ∷ parts)
        (split_part tid (sid ++ b'-' ∷ flags) (decode-NoDash tid bt t.decoded)
          ∙ ap (λ parts. tid ∷ parts)
              (split_part sid flags (decode-NoDash sid bs s.decoded)
                ∙ ap (λ parts. sid ∷ parts) (split_last flags (decode-NoDash flags bf f.decoded))))

pub parse-format :
    (tid sid flags bt bs bf : Bytes)
    → IsHex 32 tid bt
    → IsHex 16 sid bs
    → IsHex 2 flags bf
    → all_zero bt ≡ false
    → all_zero bs ≡ false
    → parse (format tid sid flags)
      ≡ some (record {
        trace_id = to_lower tid;
        span_id = to_lower sid;
        sampled = get_or bf 0 0 % 2 == 1;
      })
unfolding parse parse_parts nibble decode
parse-format tid sid flags bt bs bf t s f zt zs =
    rw
      (
        split-IsHex tid sid flags bt bs bf t s f,
        t.sized,
        s.sized,
        f.sized,
        t.decoded,
        s.decoded,
        f.decoded,
        zt,
        zs,
      )
      refl

-- A header of version 00 that is put together from the hexadecimal digits of a trace identifier of 16
-- bytes, a span identifier of 8 and a byte of flags, neither identifier all zeros, is read back as
-- those digits and the lowest bit of the flags.
pub parse-encode :
    (tid sid : Bytes) (flags : ℕ)
    → (length tid ≡ 16) × All (λ b. b < 256) tid × (all_zero tid ≡ false)
    → (length sid ≡ 8) × All (λ b. b < 256) sid × (all_zero sid ≡ false)
    → flags < 256
    → parse (format (encode tid) (encode sid) (encode (flags ∷ [])))
      ≡ some (record { trace_id = encode tid; span_id = encode sid; sampled = flags % 2 == 1 })
parse-encode tid sid flags (lt, bt, zt) (ls, bs, zs) h =
    parse-format (encode tid) (encode sid) (encode (flags ∷ [])) tid sid (flags ∷ [])
      (encode-IsHex tid 32 bt (omega arith)) (encode-IsHex sid 16 bs (omega arith))
      (encode-IsHex (flags ∷ []) 2 (h, tt) (omega arith)) zt zs
    ∙ rw (to_lower-encode tid bt, to_lower-encode sid bs) refl
