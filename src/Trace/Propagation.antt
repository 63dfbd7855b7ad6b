-- ===== src/Trace/Propagation.antt =====
-- What `FromRequest` of gateway/internal/trace/trace.go passes on.
use llms_chaos.Prelude.{
  ℕ, zero, suc, ◌+◌, ◌*◌, ◌%◌, ◌^◌, ◌<◌, ◌≡◌, refl, sym, ap, subst, ◌∙◌, Bool, true, false, not,
  ◌||◌, List, [], ◌∷◌, Option, none, some, arith, All, length, ◌==◌, Option-cases, inl, inr, get_or,
  if◌then◌else◌,
}
use llms_chaos.Prelude.Optional.{◌>>=◌}
use llms_chaos.Trace.{
  Bytes, Context, split, nibble, decode, encode, to_lower, all_zero, parse, parse_parts, four_parts,
  Entropy, congruential, random_bytes, rand_hex, flags_of, from_request, continued,
}
use llms_chaos.Trace.Hex.{decode-to_lower, length-to_lower, to_lower_twice, to_lower-encode}
use llms_chaos.Trace.Format.{IsHex, encode-IsHex, parse-format}

-- The trace identifier of a header that is accepted.
record IsTraceId (c : Context) (bs : Bytes) : Type 0 where
  is_hex : IsHex 32 c.trace_id bs
  nonzero : all_zero bs ≡ false
  lower : to_lower c.trace_id ≡ c.trace_id

-- What `Parse` makes of the four decoded parts.
abbrev decoded_parts :
    Bool
    → Option Bytes
    → Option Bytes
    → Option Bytes
    → Option Bytes
    → Bytes
    → Bytes
    → Option Context
decoded_parts wrong v t s f tid sid = if wrong then none else do
  version_bytes ← v
  tid_bytes ← t
  sid_bytes ← s
  flag_bytes ← f
  if all_zero tid_bytes || all_zero sid_bytes
      then none
      else some (record {
        trace_id = to_lower tid;
        span_id = to_lower sid;
        sampled = get_or flag_bytes 0 0 % 2 == 1;
      })

decoded_accepted :
    (wrong : Bool) (v t s f : Option Bytes) (tid sid : Bytes) (c : Context)
    → decoded_parts wrong v t s f tid sid ≡ some c
    → (wrong ≡ false)
      × ((bt : Bytes) × (t ≡ some bt) × (all_zero bt ≡ false) × (c.trace_id ≡ to_lower tid))
decoded_accepted true v t s f tid sid c h = cc
decoded_accepted false none t s f tid sid c h = cc
decoded_accepted false (some bv) none s f tid sid c h = cc
decoded_accepted false (some bv) (some bt) none f tid sid c h = cc
decoded_accepted false (some bv) (some bt) (some bs) none tid sid c h = cc
decoded_accepted false (some bv) (some bt) (some bs) (some bf) tid sid c h =
    (refl, (bt, refl, ground arith, ground arith))

sized_parts :
    (version tid sid flag : Bytes)
    → (not (length version == 2)
        || not (length tid == 32)
        || not (length sid == 16)
        || not (length flag == 2))
      ≡ false
    → length tid ≡ 32
sized_parts version tid sid flag h = ground arith

accepted_id :
    (version tid sid flag : Bytes) (c : Context)
    → parse_parts version tid sid flag ≡ some c
    → (bs : Bytes) × IsTraceId c bs
unfolding parse_parts
accepted_id version tid sid flag c h =
    let (sizes, (bt, decoded, nonzero, same)) =
      decoded_accepted _ (decode version) (decode tid) (decode sid) (decode flag) tid sid c h in
    (
      bt,
      record {
        is_hex =
            subst (λ text. IsHex 32 text bt) (sym same)
              (record {
                decoded = decode-to_lower tid bt decoded;
                sized = length-to_lower tid ∙ sized_parts version tid sid flag sizes;
              });
        nonzero = nonzero;
        lower = ap to_lower same ∙ to_lower_twice tid ∙ sym same;
      },
    )

four_accepted :
    (parts : List Bytes) (c : Context) → four_parts parts ≡ some c → (bs : Bytes) × IsTraceId c bs
four_accepted [] c h = cc
four_accepted (v ∷ []) c h = cc
four_accepted (v ∷ t ∷ []) c h = cc
four_accepted (v ∷ t ∷ s ∷ []) c h = cc
four_accepted (v ∷ t ∷ s ∷ f ∷ []) c h = accepted_id v t s f c h
four_accepted (v ∷ t ∷ s ∷ f ∷ x ∷ parts) c h = cc

-- A read of the random source gives as many bytes as it was asked for.
abbrev pub IsEntropy : Entropy → Type 0
IsEntropy e =
    (call n : ℕ) (bs : Bytes) → e.read call n ≡ some bs → (length bs ≡ n) × All (λ b. b < 256) bs

congruential_bytes :
    (n seed : ℕ) → (length (congruential n seed) ≡ n) × All (λ b. b < 256) (congruential n seed)
unfolding congruential
congruential_bytes zero seed = (refl, tt)
congruential_bytes (suc n) seed =
    let (l, all) = congruential_bytes n ((seed * 6364136223846793005 + 1) % 2 ^ 64) in
    (omega (arith, l), (omega arith, all))

random_are_bytes :
    (e : Entropy) (call n : ℕ)
    → IsEntropy e
    → (length (random_bytes e call n) ≡ n) × All (λ b. b < 256) (random_bytes e call n)
random_are_bytes e call n law = elim (Option-cases (e.read call n)) [
  | inl failed ↦ rw failed (congruential_bytes n (e.unix_nano call % 2 ^ 64))
  | inr (bs, read) ↦ rw read (law call n bs read)
]

flags_of-IsHex : (b : Bool) → IsHex 2 (flags_of b) ((if b then 1 else 0) ∷ [])
unfolding decode nibble
flags_of-IsHex true = record { decoded = refl; sized = refl }
flags_of-IsHex false = record { decoded = refl; sized = refl }

sampled_flag : (b : Bool) → ((if b then 1 else 0) % 2 == 1) ≡ b
sampled_flag true = refl
sampled_flag false = refl

continued_context :
    (e : Entropy) (c : Context) (bs : Bytes)
    → IsEntropy e
    → IsTraceId c bs
    → all_zero (random_bytes e 0 8) ≡ false
    → parse (continued e (some c)).1
      ≡ some (record { trace_id = c.trace_id; span_id = rand_hex e 0 8; sampled = c.sampled })
unfolding rand_hex
continued_context e c bs law id nonzero =
    let (l, all) = random_are_bytes e 0 8 law in
    let span = encode-IsHex (random_bytes e 0 8) 16 all (omega (arith, l)) in
    parse-format c.trace_id (encode (random_bytes e 0 8)) (flags_of c.sampled) bs
      (random_bytes e 0 8) _ id.is_hex span (flags_of-IsHex c.sampled) id.nonzero nonzero
    ∙ rw (id.lower, to_lower-encode (random_bytes e 0 8) all, sampled_flag c.sampled) refl

-- A request with a valid `traceparent` goes on with its trace identifier and with its sampled flag,
-- under a new span identifier, in a header that `Parse` reads back as those. This is so unless the
-- random bytes of the span identifier are all zero.
pub from_request-continues :
    (e : Entropy) (header : Bytes) (c : Context)
    → IsEntropy e
    → parse header ≡ some c
    → all_zero (random_bytes e 0 8) ≡ false
    → ((from_request e (some header)).0 ≡ c.trace_id)
      × (parse (from_request e (some header)).1
          ≡ some (record { trace_id = c.trace_id; span_id = rand_hex e 0 8; sampled = c.sampled }))
unfolding from_request parse
from_request-continues e header c law h nonzero =
    let (bs, id) = four_accepted (split b'-' header) c h in
    let Continues : Option Context → Type 0 = λ o.
      ((continued e o).0 ≡ c.trace_id)
      × (parse (continued e o).1
          ≡ some
              (record { trace_id = c.trace_id; span_id = rand_hex e 0 8; sampled = c.sampled })) in
    subst Continues (sym h) (refl, continued_context e c bs law id nonzero)
