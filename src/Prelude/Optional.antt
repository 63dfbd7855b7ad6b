-- ===== src/Prelude/Optional.antt =====
-- Chains of steps that may give nothing, and matches on an option.
use mathlib.Core.Path.{◌≡◌, refl}
use mathlib.Core.Option.{Option, none, some}

infixl 5 ◌>>=◌
abbrev pub ◌>>=◌ {ℓ κ} : {A : Type ℓ} {B : Type κ} → Option A → (A → Option B) → Option B
none >>= f = none
some a >>= f = f a

pub >>=-eq-some {ℓ κ} :
    {A : Type ℓ} {B : Type κ} (m : Option A) (f : A → Option B) {b : B}
    → (m >>= f) ≡ some b
    → (a : A) × (m ≡ some a) × (f a ≡ some b)
>>=-eq-some none f h = cc
>>=-eq-some (some a) f h = (a, refl, h)

-- A property of a match on an option.
pub Option_elim {ℓ κ μ} :
    {A : Type ℓ} {C : Type κ} (Q : C → Type μ) (x : Option A) (base : C) (next : A → C)
    → Q base
    → ((a : A) → x ≡ some a → Q (next a))
    → Q (elim x [ none ↦ base | some a ↦ next a ])
Option_elim Q none base next q h = q
Option_elim Q (some a) base next q h = h a refl
