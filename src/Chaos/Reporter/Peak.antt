-- ===== src/Chaos/Reporter/Peak.antt =====
-- The highest value of a series, `maxValue` of chaosd/internal/reporter/reporter.go.
use llms_chaos.Prelude.{
  true, false, sym, ◌≡◌, refl, ◌⊎◌, inl, inr, List, [], ◌∷◌, arith, if_elim, ap, ◌∙◌,
}
use llms_chaos.Prelude.Int.{ℤ, pos, ◌≤ℤ◌, ltb_ℤ}
use llms_chaos.Chaos.Reporter.{Value, nan, number, gtb, Sample, max_from, max_value}

-- No value of the samples is above `m`.
abbrev pub AllBelow : ℤ → List Sample → Type 0
AllBelow m [] = Unit
AllBelow m (p ∷ points) = (gtb p.v (number m) ≡ false) × AllBelow m points

abbrev pub Occurs : ℤ → List Sample → Type 0
Occurs m [] = ⊥
Occurs m (p ∷ points) = (p.v ≡ number m) ⊎ Occurs m points

-- The highest of `best` and the values of the samples.
abbrev IsHighest : ℤ → List Sample → Value → Type 0
IsHighest best points nan = ⊥
IsHighest best points (number m) = (best ≤ℤ m) × AllBelow m points × ((m ≡ best) ⊎ Occurs m points)

not_above : (v : Value) (x m : ℤ) → gtb v (number x) ≡ false → x ≤ℤ m → gtb v (number m) ≡ false
not_above nan x m h le = refl
not_above (number a) x m h le = ground arith

passed_over :
    (best : ℤ) (p : Sample) (points : List Sample) (v : Value)
    → gtb p.v (number best) ≡ false
    → IsHighest best points v
    → IsHighest best (p ∷ points) v
passed_over best p points nan h high = absurd high
passed_over best p points (number m) h (le, below, from) =
    (le, (not_above p.v best m h le, below), elim from [ inl e ↦ inl e | inr o ↦ inr (inr o) ])

taken :
    (best x : ℤ) (p : Sample) (points : List Sample) (v : Value)
    → p.v ≡ number x
    → ltb_ℤ best x ≡ true
    → IsHighest x points v
    → IsHighest best (p ∷ points) v
taken best x p points nan e h high = absurd high
taken best x p points (number m) e h (le, below, from) = (
  ground arith,
  (rw e (not_above (number x) x m (ground arith) le), below),
  inr (elim from [ inl same ↦ inl (e ∙ ap number (sym same)) | inr o ↦ inr o ]),
)

taken_value :
    (best : ℤ) (p : Sample) (points : List Sample) (v : Value)
    → p.v ≡ v
    → gtb v (number best) ≡ true
    → ((b : ℤ) → IsHighest b points (max_from (number b) points))
    → IsHighest best (p ∷ points) (max_from v points)
taken_value best p points nan e above later = cc
taken_value best p points (number x) e above later =
    taken best x p points (max_from (number x) points) e above (later x)

max_from-IsHighest :
    (best : ℤ) (points : List Sample) → IsHighest best points (max_from (number best) points)
unfolding max_from
max_from-IsHighest best [] = (omega arith, tt, inl refl)
max_from-IsHighest best (p ∷ points) =
    let later = λ (b : ℤ). max_from-IsHighest b points in
    if_elim (λ v. IsHighest best (p ∷ points) (max_from v points)) (gtb p.v (number best)) p.v
      (number best) (λ above. taken_value best p points p.v refl above later)
      (λ below. passed_over best p points (max_from (number best) points) below (later best))

number_of :
    (points : List Sample) (v : Value)
    → IsHighest (pos 0) points v
    → (m : ℤ) × (v ≡ number m) × (pos 0 ≤ℤ m) × AllBelow m points × ((m ≡ pos 0) ⊎ Occurs m points)
number_of points nan h = absurd h
number_of points (number m) (le, below, from) = (m, refl, le, below, from)

-- The p99 of a report is a number that is not negative, is not exceeded by any sample, and is 0 or the
-- value of a sample; a NaN among the samples is passed over.
pub max_value-IsHighest :
    (points : List Sample)
    → (m : ℤ) × (max_value points ≡ number m)
      × (pos 0 ≤ℤ m)
      × AllBelow m points
      × ((m ≡ pos 0) ⊎ Occurs m points)
unfolding max_value
max_value-IsHighest points =
    number_of points (max_from (number (pos 0)) points) (max_from-IsHighest (pos 0) points)
