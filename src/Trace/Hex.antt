-- ===== src/Trace/Hex.antt =====
-- Hexadecimal digits, and the dashes between them.
use llms_chaos.Prelude.{
  ℕ, ◌+◌, ◌*◌, ◌/◌, ◌%◌, ◌<◌, ◌≡◌, refl, sym, ap, if◌then◌else◌, false, [], ◌∷◌, ◌++◌, some, arith,
  All, length, ◌==◌,
}
use llms_chaos.Prelude.Optional.{>>=-eq-some}
use mathlib.Core.Option.{some-injective}
use llms_chaos.Trace.{Bytes, within, split, nibble, decode, hex_digit, encode, to_lower}

nibble-hex_digit : (n : ℕ) → n < 16 → nibble (hex_digit n) ≡ some n
unfolding nibble hex_digit
nibble-hex_digit n h = ground arith

pub decode-encode : (bs : Bytes) → All (λ b. b < 256) bs → decode (encode bs) ≡ some bs
unfolding decode encode
decode-encode [] h = refl
decode-encode (b ∷ bs) h =
    ground (arith, nibble-hex_digit (b / 16), nibble-hex_digit (b % 16), decode-encode bs h.1)

pub length-encode : (bs : Bytes) → length (encode bs) ≡ 2 * length bs
unfolding encode
length-encode [] = omega arith
length-encode (b ∷ bs) = omega (arith, length-encode bs)

pub to_lower-encode : (bs : Bytes) → All (λ b. b < 256) bs → to_lower (encode bs) ≡ encode bs
unfolding to_lower encode hex_digit
to_lower-encode [] h = refl
to_lower-encode (b ∷ bs) h = ground (arith, to_lower-encode bs h.1)

pub length-to_lower : (s : Bytes) → length (to_lower s) ≡ length s
unfolding to_lower
length-to_lower [] = refl
length-to_lower (c ∷ s) = omega (arith, length-to_lower s)

pub to_lower_twice : (s : Bytes) → to_lower (to_lower s) ≡ to_lower s
unfolding to_lower
to_lower_twice [] = refl
to_lower_twice (c ∷ s) = ground (arith, to_lower_twice s)

decode_cons :
    (a b : ℕ) (s bs : Bytes)
    → decode (a ∷ b ∷ s) ≡ some bs
    → (x : ℕ) × (y : ℕ) × (rest : Bytes) × (nibble a ≡ some x)
      × (nibble b ≡ some y)
      × (decode s ≡ some rest)
      × (bs ≡ (x * 16 + y) ∷ rest)
unfolding decode
decode_cons a b s bs h =
    let (x, p, h1) = >>=-eq-some (nibble a) _ h in
    let (y, q, h2) = >>=-eq-some (nibble b) _ h1 in
    let (rest, r, h3) = >>=-eq-some (decode s) (λ rest. some ((x * 16 + y) ∷ rest)) h2 in
    (x, y, rest, p, q, r, sym (some-injective _ bs h3))

nibble_lower :
    (c x : ℕ) → nibble c ≡ some x → nibble (if within b'A' b'Z' c then c + 32 else c) ≡ some x
unfolding nibble
nibble_lower c x h = ground arith

nibble_dash : (c x : ℕ) → nibble c ≡ some x → (c == b'-') ≡ false
unfolding nibble
nibble_dash c x h = ground arith

pub decode-to_lower : (s : Bytes) (bs : Bytes) → decode s ≡ some bs → decode (to_lower s) ≡ some bs
unfolding decode to_lower
decode-to_lower [] bs h = h
decode-to_lower (a ∷ []) bs h = cc
decode-to_lower (a ∷ b ∷ s) bs h =
    let (x, y, rest, p, q, r, e) = decode_cons a b s bs h in
    rw (nibble_lower a x p, nibble_lower b y q, decode-to_lower s rest r) (ap some (sym e))

-- A text without dashes.
abbrev pub NoDash : Bytes → Type 0
NoDash s = All (λ c. (c == b'-') ≡ false) s

pub decode-NoDash : (s : Bytes) (bs : Bytes) → decode s ≡ some bs → NoDash s
unfolding decode
decode-NoDash [] bs h = tt
decode-NoDash (a ∷ []) bs h = cc
decode-NoDash (a ∷ b ∷ s) bs h =
    let (x, y, rest, p, q, r, e) = decode_cons a b s bs h in
    (nibble_dash a x p, (nibble_dash b y q, decode-NoDash s rest r))

pub split_part :
    (part rest : Bytes) → NoDash part → split b'-' (part ++ b'-' ∷ rest) ≡ part ∷ split b'-' rest
unfolding split
split_part [] rest h = refl
split_part (c ∷ part) rest h = rw (h.0, split_part part rest h.1) refl

pub split_last : (part : Bytes) → NoDash part → split b'-' part ≡ part ∷ []
unfolding split
split_last [] h = refl
split_last (c ∷ part) h = rw (h.0, split_last part h.1) refl
