-- ===== src/Trace.antt =====
-- The trace context of gateway/internal/trace/trace.go. A text is the list of its bytes. What the
-- system's random source reads and the clock are parameters, by the number of the call.
pub mod Hex
pub mod Format
pub mod Propagation
mod Tests
use llms_chaos.Prelude.{
  ℕ, zero, suc, ◌+◌, ◌-◌, ◌*◌, ◌/◌, ◌%◌, ◌^◌, Bool, true, false, ◌&&◌, ◌||◌, not, List, [], ◌∷◌,
  ◌++◌, Option, none, some, map, ltb, leb, ◌==◌, if◌then◌else◌, length, get_or,
}
use llms_chaos.Prelude.Optional.{◌>>=◌}

abbrev pub Bytes : Type 0
Bytes = List ℕ

abbrev pub within : ℕ → ℕ → ℕ → Bool
within lo hi c = leb lo c && leb c hi

-- `strings.Split` by one byte.
abbrev pub prepend : ℕ → List Bytes → List Bytes
prepend c [] = (c ∷ []) ∷ []
prepend c (part ∷ parts) = (c ∷ part) ∷ parts

unfoldable pub split : ℕ → Bytes → List Bytes
split separator [] = [] ∷ []
split separator (c ∷ s) =
    if c == separator then [] ∷ split separator s else prepend c (split separator s)

-- `encoding/hex`: the value of a digit, `DecodeString` and `EncodeToString`.
unfoldable pub nibble : ℕ → Option ℕ
nibble c =
    if within b'0' b'9' c
    then some (c - b'0')
    else if within b'a' b'f' c
    then some (c - b'a' + 10)
    else if within b'A' b'F' c
    then some (c - b'A' + 10)
    else none

unfoldable pub decode : Bytes → Option Bytes
decode [] = some []
decode (a ∷ []) = none
decode (a ∷ b ∷ s) = do
  high ← nibble a
  low ← nibble b
  rest ← decode s
  some ((high * 16 + low) ∷ rest)

unfoldable pub hex_digit : ℕ → ℕ
hex_digit n = if ltb n 10 then b'0' + n else b'a' + n - 10

unfoldable pub encode : Bytes → Bytes
unfolding hex_digit
encode [] = []
encode (b ∷ bs) = hex_digit (b / 16) ∷ hex_digit (b % 16) ∷ encode bs

-- `strings.ToLower` of a text of hexadecimal digits.
unfoldable pub to_lower : Bytes → Bytes
to_lower = map (λ c. if within b'A' b'Z' c then c + 32 else c)

-- The closure `zero` of `Parse`.
unfoldable pub all_zero : Bytes → Bool
all_zero [] = true
all_zero (v ∷ bs) = if v == 0 then all_zero bs else false

pub record Context : Type 0 where
  pub trace_id : Bytes
  pub span_id : Bytes
  pub sampled : Bool

-- The four parts of a header that `Parse` accepts.
unfoldable pub parse_parts : Bytes → Bytes → Bytes → Bytes → Option Context
parse_parts version tid sid flag =
    if not (length version == 2)
      || not (length tid == 32)
      || not (length sid == 16)
      || not (length flag == 2)
    then none
    else do
      version_bytes ← decode version
      tid_bytes ← decode tid
      sid_bytes ← decode sid
      flag_bytes ← decode flag
      if all_zero tid_bytes || all_zero sid_bytes
          then none
          else some (record {
            trace_id = to_lower tid;
            span_id = to_lower sid;
            sampled = get_or flag_bytes 0 0 % 2 == 1;
          })

abbrev pub four_parts : List Bytes → Option Context
four_parts (version ∷ tid ∷ sid ∷ flag ∷ []) = parse_parts version tid sid flag
four_parts parts = none

-- `none` is the result whose last value is false.
unfoldable pub parse : Bytes → Option Context
parse s = four_parts (split b'-' s)

pub record Entropy : Type 0 where
  pub read : ℕ → ℕ → Option Bytes
  pub unix_nano : ℕ → ℕ

-- The bytes that replace those of the random source if it fails.
unfoldable pub congruential : ℕ → ℕ → Bytes
congruential zero seed = []
congruential (suc n) seed =
    let seed' = (seed * 6364136223846793005 + 1) % 2 ^ 64 in
    (seed' / 2 ^ 56) % 256 ∷ congruential n seed'

abbrev pub or_congruential : ℕ → ℕ → Option Bytes → Bytes
or_congruential n seed (some bs) = bs
or_congruential n seed none = congruential n seed

module _ (e : Entropy) where
  abbrev pub random_bytes : ℕ → ℕ → Bytes
  random_bytes call n = or_congruential n (e.unix_nano call % 2 ^ 64) (e.read call n)

  unfoldable pub rand_hex : ℕ → ℕ → Bytes
  rand_hex call n = encode (random_bytes call n)

-- `"00-" + tid + "-" + sid + "-" + flags`
abbrev pub format : Bytes → Bytes → Bytes → Bytes
format tid sid flags = b'0' ∷ b'0' ∷ b'-' ∷ (tid ++ b'-' ∷ (sid ++ b'-' ∷ flags))

abbrev pub flags_of : Bool → Bytes
flags_of sampled = b'0' ∷ (if sampled then b'1' else b'0') ∷ []

unfoldable pub generate : Entropy → Bytes × Bytes × Bytes
generate e =
    let tid = rand_hex e 0 16 in
    let sid = rand_hex e 1 8 in (tid, sid, format tid sid (flags_of true))

abbrev pub continued : Entropy → Option Context → Bytes × Bytes
continued e (some c) = (c.trace_id, format c.trace_id (rand_hex e 0 8) (flags_of c.sampled))
continued e none = let (tid, sid, header) = generate e in (tid, header)

-- The header `traceparent` of a request, empty where it has none; `none` is a request that is nil.
unfoldable pub from_request : Entropy → Option Bytes → Bytes × Bytes
from_request e none = continued e none
from_request e (some header) = continued e (parse header)
