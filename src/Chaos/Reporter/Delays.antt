-- ===== src/Chaos/Reporter/Delays.antt =====
-- The delays of a report of chaosd/internal/reporter/reporter.go.
use llms_chaos.Prelude.{
  Bool, true, false, ◌≡◌, List, [], ◌∷◌, get_or, arith, if◌then◌else◌, none, some, String, if_elim,
  ℕ, leb, subst,
}
use mathlib.Core.Option.{some-injective}
use llms_chaos.Prelude.Optional.{>>=-eq-some}
use llms_chaos.Prelude.Int.{ℤ, pos, ◌≤ℤ◌}
use llms_chaos.Chaos.Reporter.{
  Value, gtb, Sample, Library, World, Result, zero_time, found_from, version_events, sub, delay,
  summarize, fetch_matrix, read_matrix, generate, ttft_query,
}

abbrev pub SortedFrom : ℤ → List Sample → Type 0
SortedFrom t [] = Unit
SortedFrom t (p ∷ points) = (t ≤ℤ p.t) × SortedFrom p.t points

abbrev pub IsSorted : List Sample → Type 0
IsSorted [] = Unit
IsSorted (p ∷ points) = SortedFrom p.t points

abbrev TimesFrom : ℤ → List ℤ → Type 0
TimesFrom t [] = Unit
TimesFrom t (x ∷ xs) = (t ≤ℤ x) × TimesFrom x xs

earlier_start : (t u : ℤ) (xs : List ℤ) → t ≤ℤ u → TimesFrom u xs → TimesFrom t xs
earlier_start t u [] h s = tt
earlier_start t u (x ∷ xs) h s = (omega (arith, h, s.0), s.1)

found_from-TimesFrom :
    (t : ℤ) (current : Value) (points : List Sample)
    → SortedFrom t points
    → TimesFrom t (found_from current points)
unfolding found_from
found_from-TimesFrom t current [] h = tt
found_from-TimesFrom t current (p ∷ points) h =
    let next = if gtb p.v current then p.v else current in
    let later = found_from-TimesFrom p.t next points h.1 in
    if_elim (TimesFrom t) (gtb p.v current) (p.t ∷ found_from next points) (found_from next points)
      (λ _. (h.0, later)) (λ _. earlier_start t p.t (found_from next points) h.0 later)

delay_pos : (t u : ℤ) → t ≤ℤ u → pos 0 ≤ℤ delay t u
unfolding delay sub
delay_pos t u h = ground arith

delay_missing : (t : ℤ) → pos 0 ≤ℤ delay t zero_time
unfolding delay
delay_missing t = ground arith

-- The second and third of some times that ascend come no earlier than the one before, if any.
found_delays :
    (t : ℤ) (xs : List ℤ)
    → TimesFrom t xs
    → (pos 0 ≤ℤ delay (get_or xs 0 zero_time) (get_or xs 1 zero_time))
      × (pos 0 ≤ℤ delay (get_or xs 1 zero_time) (get_or xs 2 zero_time))
found_delays t [] h = (delay_missing zero_time, delay_missing zero_time)
found_delays t (a ∷ []) h = (delay_missing a, delay_missing zero_time)
found_delays t (a ∷ b ∷ []) h = (delay_pos a b h.1.0, delay_missing b)
found_delays t (a ∷ b ∷ c ∷ xs) h = (delay_pos a b h.1.0, delay_pos b c h.1.1.0)

abbrev HasDelays : Result → Type 0
HasDelays r = (pos 0 ≤ℤ r.mttd) × (pos 0 ≤ℤ r.mttr)

summarize-HasDelays :
    (start stop : ℤ) (points ttft : List Sample)
    → IsSorted points
    → HasDelays (summarize start stop points ttft)
unfolding summarize version_events
summarize-HasDelays start stop [] ttft h = (delay_missing zero_time, delay_missing zero_time)
summarize-HasDelays start stop (p ∷ points) ttft h =
    found_delays p.t (found_from p.v points) (found_from-TimesFrom p.t p.v points h)

fetch_matrix-IsSorted :
    (lib : Library) (w : World) (base_url query : String) (start stop : ℤ) (step : ℕ)
    (points : List Sample)
    → ((xs : List Sample) → IsSorted (lib.sort xs))
    → fetch_matrix lib w base_url query start stop step ≡ some points
    → IsSorted points
unfolding fetch_matrix
fetch_matrix-IsSorted lib w base_url query start stop step points sorts h =
    let (reply, e, h') = >>=-eq-some (w.query_range _ query start stop step) _ h in
    let (matrix, e', found) =
      >>=-eq-some (if leb 300 reply.0 then none else reply.1)
        (λ m. some (lib.sort (read_matrix lib m))) h' in
    subst IsSorted (some-injective _ points found) (sorts (read_matrix lib matrix))

written_result : (done : Bool) (x r : Result) → (if done then some x else none) ≡ some r → x ≡ r
written_result true x r h = some-injective x r h
written_result false x r h = cc

-- If `sort.Slice` sorts by time, the two delays of every report that is written are not negative.
pub generate-delays :
    (lib : Library) (w : World) (prom_url : String) (start stop : ℤ) (out_dir : String) (r : Result)
    → ((xs : List Sample) → IsSorted (lib.sort xs))
    → generate lib w prom_url start stop out_dir ≡ some r
    → (pos 0 ≤ℤ r.mttd) × (pos 0 ≤ℤ r.mttr)
unfolding generate
generate-delays lib w prom_url start stop out_dir r sorts h =
    let (points, e, h1) = >>=-eq-some (fetch_matrix lib w _ _ start stop 15) _ h in
    let (ttft, e', h2) = >>=-eq-some (fetch_matrix lib w _ ttft_query start stop 15) _ h1 in
    let sorted = fetch_matrix-IsSorted lib w _ _ start stop 15 points sorts e in
    let (done, e'', h3) =
      >>=-eq-some (if w.make_directory _ then some (w.write_file _ _) else none) _ h2 in
    subst HasDelays (written_result done _ r h3) (summarize-HasDelays start stop points ttft sorted)
