-- ===== src/Chaos/Reporter/Events.antt =====
-- What `versionEvents` and `maxValue` of chaosd/internal/reporter/reporter.go find in a series.
use llms_chaos.Prelude.{
  Bool, true, false, ◌&&◌, ◌≡◌, refl, List, [], ◌∷◌, get_or, arith, if◌then◌else◌,
}
use llms_chaos.Prelude.Int.{ℤ}
use llms_chaos.Chaos.Reporter.{
  Value, nan, number, gtb, Sample, zero_time, found_from, version_events,
}

-- Whether a value is greater than each of these that is not NaN.
abbrev pub exceeds : Value → List Value → Bool
exceeds v [] = true
exceeds v (nan ∷ earlier) = exceeds v earlier
exceeds v (number a ∷ earlier) = gtb v (number a) && exceeds v earlier

-- The times of the samples whose value exceeds all of the earlier ones.
abbrev pub rises : List Value → List Sample → List ℤ
rises earlier [] = []
rises earlier (p ∷ points) =
    let later = rises (p.v ∷ earlier) points in if exceeds p.v earlier then p.t ∷ later else later

-- A series that starts with a NaN has none.
abbrev pub all_rises : List Sample → List ℤ
all_rises [] = []
all_rises (p ∷ points) = elim p.v [ nan ↦ [] | number a ↦ rises (number a ∷ []) points ]

gtb_nan : (v : Value) → gtb v nan ≡ false
gtb_nan nan = refl
gtb_nan (number a) = refl

and_false : (b : Bool) → (b && false) ≡ false
and_false true = refl
and_false false = refl

exceeds_greater :
    (v x current : Value) (earlier : List Value)
    → exceeds v earlier ≡ gtb v current
    → exceeds v (x ∷ earlier) ≡ gtb v (if gtb x current then x else current)
exceeds_greater v nan current earlier h = h
exceeds_greater v (number x) nan earlier h = rw (h, gtb_nan v, and_false) refl
exceeds_greater nan (number x) (number c) earlier h = ground (arith, gtb_nan nan)
exceeds_greater (number v) (number x) (number c) earlier h = ground arith

found_from-eq-rises :
    (current : Value) (earlier : List Value) (points : List Sample)
    → ((v : Value) → exceeds v earlier ≡ gtb v current)
    → found_from current points ≡ rises earlier points
unfolding found_from
found_from-eq-rises current earlier [] same = refl
found_from-eq-rises current earlier (p ∷ points) same =
    let later =
      found_from-eq-rises (if gtb p.v current then p.v else current) (p.v ∷ earlier) points
        (λ v. exceeds_greater v p.v current earlier (same v)) in
    rw (later, same p.v) refl

nothing_found : (points : List Sample) → found_from nan points ≡ []
unfolding found_from
nothing_found [] = refl
nothing_found (p ∷ points) = rw (gtb_nan p.v) (nothing_found points)

first_value :
    (v : Value) (points : List Sample)
    → found_from v points ≡ elim v [ nan ↦ [] | number a ↦ rises (number a ∷ []) points ]
first_value nan points = nothing_found points
first_value (number a) points =
    found_from-eq-rises (number a) (number a ∷ []) points (λ v. ground arith)

-- The suspect, dead and ready times of a report are the first, second and third time at which the
-- series is above all of its earlier values, with NaNs passed over, and the zero time where there are
-- fewer. A series that starts with a NaN has none of them.
pub version_events-eq-rises :
    (points : List Sample)
    → version_events points ≡ (
      get_or (all_rises points) 0 zero_time,
      get_or (all_rises points) 1 zero_time,
      get_or (all_rises points) 2 zero_time,
    )
unfolding version_events
version_events-eq-rises [] = refl
version_events-eq-rises (p ∷ points) = rw (first_value p.v points) refl
