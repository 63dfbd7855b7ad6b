-- ===== src/Prelude/Decimal.antt =====
-- `%d` of Go's fmt: decimal digits, and what they read back as.
use Prim.Native.Char.{Char, code}
use Prim.Native.Nat.{ℕ, zero, suc, ◌+◌, ◌-◌, ◌*◌, ◌/◌, ◌%◌, ◌^◌, ◌≤◌, ◌<◌}
use Prim.Native.String.{String}
use Prim.Native.String
use mathlib.Core.Path.{◌≡◌, refl, sym, ap, ◌∙◌}
use mathlib.Core.Bool.{◌&&◌, false}
use mathlib.Core.Option.{Option, none, some, some-injective}
use mathlib.Core.Logic.{inl, inr}
use native.Mathlib.Omega.{arith}
use llms_chaos.Prelude.Tests.{ltb, leb, ◌==◌, if◌then◌else◌, Bool-cases, if_elim}
use llms_chaos.Prelude.Int.{ℤ, pos, negsuc}

abbrev digit : ℕ → Char
digit zero = "0"
digit (suc zero) = "1"
digit (suc (suc zero)) = "2"
digit (suc (suc (suc zero))) = "3"
digit (suc (suc (suc (suc zero)))) = "4"
digit (suc (suc (suc (suc (suc zero))))) = "5"
digit (suc (suc (suc (suc (suc (suc zero)))))) = "6"
digit (suc (suc (suc (suc (suc (suc (suc zero))))))) = "7"
digit (suc (suc (suc (suc (suc (suc (suc (suc zero)))))))) = "8"
digit d = "9"

code-digit : (d : ℕ) → d < 10 → code (digit d) ≡ 48 + d
code-digit zero h = refl
code-digit (suc zero) h = refl
code-digit (suc (suc zero)) h = refl
code-digit (suc (suc (suc zero))) h = refl
code-digit (suc (suc (suc (suc zero)))) h = refl
code-digit (suc (suc (suc (suc (suc zero))))) h = refl
code-digit (suc (suc (suc (suc (suc (suc zero)))))) h = refl
code-digit (suc (suc (suc (suc (suc (suc (suc zero))))))) h = refl
code-digit (suc (suc (suc (suc (suc (suc (suc (suc zero)))))))) h = refl
code-digit (suc (suc (suc (suc (suc (suc (suc (suc (suc d))))))))) h = omega arith

-- The digits of `n` in front of a text, with fuel for their number.
emit : ℕ → ℕ → String → String
emit zero n out = out
emit (suc fuel) n out =
    let shown = String.◌∷◌ (digit (n % 10)) out in
    let more = emit fuel (n / 10) shown in if ltb n 10 then shown else more

-- A number has no more digits than its successor counts.
unfoldable pub show : ℕ → String
unfolding emit
show n = emit (suc n) n String.[]

unfoldable pub show_ℤ : ℤ → String
unfolding show
show_ℤ (pos n) = show n
show_ℤ (negsuc n) = String.◌++◌ "-" (show (suc n))

-- `strconv.Atoi` and `ParseInt` in base 10 with 64 bits: digits behind at most one sign.
digits : String → ℕ → Option ℕ
digits String.[] acc = some acc
digits (String.◌∷◌ c s) acc =
    if leb 48 (code c) && leb (code c) 57 then digits s (acc * 10 + (code c - 48)) else none

unsigned : String → Option ℕ
unsigned String.[] = none
unsigned (String.◌∷◌ c s) = digits (String.◌∷◌ c s) 0

abbrev positive : Option ℕ → Option ℤ
positive none = none
positive (some n) = if ltb n (2 ^ 63) then some (pos n) else none

abbrev negative : Option ℕ → Option ℤ
negative none = none
negative (some zero) = some (pos 0)
negative (some (suc n)) = if ltb n (2 ^ 63) then some (negsuc n) else none

unfoldable pub parse_int : String → Option ℤ
unfolding digits unsigned
parse_int String.[] = none
parse_int (String.◌∷◌ c s) =
    if code c == 45
    then negative (unsigned s)
    else if code c == 43
    then positive (unsigned s)
    else positive (unsigned (String.◌∷◌ c s))

digits-emit : (fuel n : ℕ) (out : String) → n < fuel → digits (emit fuel n out) 0 ≡ digits out n
unfolding emit digits
digits-emit zero n out h = absurd (omega arith)
digits-emit (suc fuel) n out h = elim (Bool-cases (ltb n 10)) [
  | inl one ↦ rw one (ground (arith, code-digit (n % 10)))
  | inr many ↦ rw many (
      digits-emit fuel (n / 10) (String.◌∷◌ (digit (n % 10)) out) (ground arith)
      ∙ ground (arith, code-digit (n % 10)))
]

-- A printed number is read as itself, so two numbers with the same print are equal.
digits-show : (n : ℕ) → digits (show n) 0 ≡ some n
unfolding show digits
digits-show n = digits-emit (suc n) n String.[] (omega arith)

pub show-injective : (m n : ℕ) → show m ≡ show n → m ≡ n
show-injective m n h =
    some-injective m n (sym (digits-show m) ∙ ap (λ s. digits s 0) h ∙ digits-show n)

abbrev StartsDigit : String → Type 0
StartsDigit String.[] = ⊥
StartsDigit (String.◌∷◌ c s) = (48 ≤ code c) × (code c ≤ 57)

digit-StartsDigit : (n : ℕ) (s : String) → StartsDigit (String.◌∷◌ (digit (n % 10)) s)
digit-StartsDigit n s = (omega (arith, code-digit (n % 10)), omega (arith, code-digit (n % 10)))

emit-StartsDigit : (fuel n : ℕ) (out : String) → StartsDigit out → StartsDigit (emit fuel n out)
unfolding emit
emit-StartsDigit zero n out h = h
emit-StartsDigit (suc fuel) n out h =
    let shown = String.◌∷◌ (digit (n % 10)) out in
    if_elim StartsDigit (ltb n 10) shown (emit fuel (n / 10) shown) (λ _. digit-StartsDigit n out)
      (λ _. emit-StartsDigit fuel (n / 10) shown (digit-StartsDigit n out))

show-StartsDigit : (n : ℕ) → StartsDigit (show n)
unfolding show emit
show-StartsDigit n =
    let shown = String.◌∷◌ (digit (n % 10)) String.[] in
    if_elim StartsDigit (ltb n 10) shown (emit n (n / 10) shown)
      (λ _. digit-StartsDigit n String.[])
      (λ _. emit-StartsDigit n (n / 10) shown (digit-StartsDigit n String.[]))

parse_unsigned : (s : String) → StartsDigit s → parse_int s ≡ positive (digits s 0)
unfolding parse_int unsigned
parse_unsigned String.[] h = absurd h
parse_unsigned (String.◌∷◌ c s) h =
    let no_minus : (code c == 45) ≡ false = ground arith in
    let no_plus : (code c == 43) ≡ false = ground arith in rw (no_minus, no_plus) refl

-- An int that is not negative is read back from its print.
pub parse_int-show : (n : ℕ) → n < 2 ^ 63 → parse_int (show n) ≡ some (pos n)
parse_int-show n h =
    parse_unsigned (show n) (show-StartsDigit n) ∙ ap positive (digits-show n) ∙ ground arith

show_some : show 9003 ≡ "9003"
unfolding show
show_some = refl

parse_some : parse_int "-120" ≡ some (negsuc 119)
unfolding parse_int
parse_some = refl
