-- ===== src/Chaos/Reporter/Tests.antt =====
-- A report of a short series, and the theorems at it.
use llms_chaos.Prelude.{
  ℕ, ◌≡◌, refl, true, List, [], ◌∷◌, none, some, arith, if◌then◌else◌, if_elim, ◌⊎◌, get_or,
}
use llms_chaos.Prelude.Int.{ℤ, pos, ◌≤ℤ◌, leb_ℤ}
use llms_chaos.Chaos.Reporter.{
  Value, nan, number, Sample, Json, float, other, Library, World, Result, zero_time, max_value,
  max_from, version_events, generate, fetch_matrix, read_matrix, read_series, read_pair, to_float,
  summarize, delay, sub, found_from,
}
use llms_chaos.Chaos.Reporter.Events.{all_rises, version_events-eq-rises}
use llms_chaos.Chaos.Reporter.Peak.{AllBelow, Occurs, max_value-IsHighest}
use llms_chaos.Chaos.Reporter.Delays.{IsSorted, SortedFrom, generate-delays}

abbrev point : ℕ → Value → Sample
point t v = record { t = pos t; v = v }

-- A cluster whose version rises three times, with a NaN in between.
abbrev points : List Sample
points =
    point 100 (number (pos 4))
    ∷ point 115 (number (pos 5))
    ∷ point 130 nan
    ∷ point 145 (number (pos 5))
    ∷ point 160 (number (pos 6))
    ∷ point 175 (number (pos 8))
    ∷ []

points_events : version_events points ≡ (pos 115, pos 160, pos 175)
unfolding version_events found_from
points_events = refl

version_events-eq-rises_example : version_events points ≡ (
  get_or (all_rises points) 0 zero_time,
  get_or (all_rises points) 1 zero_time,
  get_or (all_rises points) 2 zero_time,
)
version_events-eq-rises_example = version_events-eq-rises points

points_peak : max_value points ≡ number (pos 8)
unfolding max_value max_from
points_peak = refl

max_value-IsHighest_example :
    (m : ℤ) × (max_value points ≡ number m)
    × (pos 0 ≤ℤ m)
    × AllBelow m points
    × ((m ≡ pos 0) ⊎ Occurs m points)
max_value-IsHighest_example = max_value-IsHighest points

-- A sort by time.
insert_by_time : Sample → List Sample → List Sample
insert_by_time p [] = p ∷ []
insert_by_time p (q ∷ qs) = if leb_ℤ p.t q.t then p ∷ q ∷ qs else q ∷ insert_by_time p qs

abbrev sort_by_time : List Sample → List Sample
unfolding insert_by_time
sort_by_time [] = []
sort_by_time (p ∷ ps) = insert_by_time p (sort_by_time ps)

insert_by_time-SortedFrom :
    (t : ℤ) (p : Sample) (qs : List Sample)
    → t ≤ℤ p.t
    → SortedFrom t qs
    → SortedFrom t (insert_by_time p qs)
unfolding insert_by_time
insert_by_time-SortedFrom t p [] h s = (h, tt)
insert_by_time-SortedFrom t p (q ∷ qs) h s =
    if_elim (SortedFrom t) (leb_ℤ p.t q.t) (p ∷ q ∷ qs) (q ∷ insert_by_time p qs)
      (λ le. (h, (ground arith, s.1)))
      (λ gt. (s.0, insert_by_time-SortedFrom q.t p qs (ground arith) s.1))

insert_by_time-IsSorted :
    (p : Sample) (qs : List Sample) → IsSorted qs → IsSorted (insert_by_time p qs)
unfolding insert_by_time
insert_by_time-IsSorted p [] s = tt
insert_by_time-IsSorted p (q ∷ qs) s =
    if_elim IsSorted (leb_ℤ p.t q.t) (p ∷ q ∷ qs) (q ∷ insert_by_time p qs)
      (λ le. (ground arith, s)) (λ gt. insert_by_time-SortedFrom q.t p qs (ground arith) s)

sort_by_time-IsSorted : (ps : List Sample) → IsSorted (sort_by_time ps)
unfolding sort_by_time
sort_by_time-IsSorted [] = tt
sort_by_time-IsSorted (p ∷ ps) =
    insert_by_time-IsSorted p (sort_by_time ps) (sort_by_time-IsSorted ps)

-- Times and values are printed as nothing, and a text is no number.
abbrev lib : Library
lib = record {
  parse_float = λ s. none;
  of_int = λ n. number n;
  to_int = λ v. elim v [ nan ↦ pos 0 | number n ↦ n ];
  sort = sort_by_time;
  rfc3339 = λ t. "";
  compact = λ t. "";
  duration = λ d. "";
  fixed4 = λ v. "";
  plain = λ v. "";
}

abbrev pair : ℕ → ℕ → List Json
pair t v = float (number (pos t)) ∷ float (number (pos v)) ∷ []

abbrev world : World
world = record {
  query_range = λ url query start stop step.
      some
        (200, some ((pair 175 8 ∷ pair 100 4 ∷ (other ∷ []) ∷ pair 160 6 ∷ pair 115 5 ∷ []) ∷ []));
  make_directory = λ directory. true;
  write_file = λ path lines. true;
}

abbrev result : Result
result = record {
  start = pos 90;
  stop = pos 200;
  suspect_at = pos 115;
  dead_at = pos 160;
  ready_at = pos 175;
  mttd = pos 45000000000;
  mttr = pos 15000000000;
  p99_ttft = number (pos 8);
  path = "reports/report-.md";
}

report_written : generate lib world "" (pos 90) (pos 200) "" ≡ some result
unfolding generate fetch_matrix read_matrix read_series read_pair to_float summarize version_events
    found_from delay sub max_value max_from insert_by_time
report_written = refl

generate-delays_example : (pos 0 ≤ℤ result.mttd) × (pos 0 ≤ℤ result.mttr)
generate-delays_example =
    generate-delays lib world "" (pos 90) (pos 200) "" result sort_by_time-IsSorted report_written
