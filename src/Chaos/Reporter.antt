-- ===== src/Chaos/Reporter.antt =====
-- The report of chaosd/internal/reporter/reporter.go. A time is a whole number of seconds, since the
-- samples have no others and those of the window are only printed. A float64 is NaN or the integer of
-- its multiples of 2 ^ -1074, an infinity an integer beyond them. The library's conversions and the
-- sort by time, Prometheus and the
-- file system are parameters; the text of a report is given by its lines.
pub mod Events
pub mod Delays
pub mod Peak
mod Tests
use llms_chaos.Prelude.{
  ℕ, suc, ◌+◌, ◌*◌, ◌-◌, ◌^◌, min, Bool, true, false, not, ◌&&◌, String, ◌=ₛ◌, ◌++ₛ◌, List, [], ◌∷◌,
  ◌++◌, Option, none, some, ltb, leb, if◌then◌else◌, get_or,
}
use llms_chaos.Prelude.Optional.{◌>>=◌}
use llms_chaos.Prelude.Int.{ℤ, pos, negsuc, pos_part, neg_part, sub_ℕ, ltb_ℤ, leb_ℤ}

pub data Value : Type 0 where
  nan : Value
  number : ℤ → Value

-- `a > b`, which does not hold of a NaN.
abbrev pub gtb : Value → Value → Bool
gtb (number a) (number b) = ltb_ℤ b a
gtb a b = false

pub record Sample : Type 0 where
  pub t : ℤ
  pub v : Value

-- What stands in a pair of the decoded JSON.
pub data Json : Type 0 where
  float : Value → Json
  text numeral : String → Json
  int : ℤ → Json
  other : Json

abbrev pub Matrix : Type 0
Matrix = List (List (List Json))

-- What the Go library does: `ParseFloat`, the conversions of an int to a float64 and of a float64 to
-- an int64, `sort.Slice` by `Before`, and the formats of a time, a duration and a float64, to four places or in full.
pub record Library : Type 0 where
  pub parse_float : String → Option Value
  pub of_int : ℤ → Value
  pub to_int : Value → ℤ
  pub sort : List Sample → List Sample
  pub rfc3339 : ℤ → String
  pub compact : ℤ → String
  pub duration : ℤ → String
  pub fixed4 : Value → String
  pub plain : Value → String

-- A query is answered with a status and a body, which may not decode, or not at all.
pub record World : Type 0 where
  pub query_range : String → String → ℤ → ℤ → ℕ → Option (ℕ × Option Matrix)
  pub make_directory : String → Bool
  pub write_file : String → List String → Bool

pub record Result : Type 0 where
  pub start : ℤ
  pub stop : ℤ
  pub suspect_at : ℤ
  pub dead_at : ℤ
  pub ready_at : ℤ
  pub mttd : ℤ
  pub mttr : ℤ
  pub p99_ttft : Value
  pub path : String

unfoldable pub to_float : Library → Json → Option Value
to_float lib (float x) = some x
to_float lib (text s) = lib.parse_float s
to_float lib (numeral s) = lib.parse_float s
to_float lib (int x) = some (lib.of_int x)
to_float lib other = none

-- A pair becomes a sample; anything else is passed over.
unfoldable pub read_pair : Library → List Json → Option Sample
read_pair lib (a ∷ b ∷ []) = do
  ts ← to_float lib a
  val ← to_float lib b
  some (record { t = lib.to_int ts; v = val })
read_pair lib pair = none

abbrev if_some : Option Sample → List Sample → List Sample
if_some none out = out
if_some (some s) out = s ∷ out

unfoldable pub read_series : Library → List (List Json) → List Sample
read_series lib [] = []
read_series lib (pair ∷ values) = if_some (read_pair lib pair) (read_series lib values)

unfoldable pub read_matrix : Library → Matrix → List Sample
read_matrix lib [] = []
read_matrix lib (series ∷ result) = read_series lib series ++ read_matrix lib result

unfoldable pub fetch_matrix : Library → World → String → String → ℤ → ℤ → ℕ → Option (List Sample)
fetch_matrix lib w base_url query start stop step = do
  (status, body) ← w.query_range (base_url ++ₛ "/api/v1/query_range") query start stop step
  matrix ← if leb 300 status then none else body
  some (lib.sort (read_matrix lib matrix))

-- `time.Time{}`, the first second of the year 1.
abbrev pub zero_time : ℤ
zero_time = negsuc 62135596799

abbrev pub is_zero : ℤ → Bool
is_zero t = leb_ℤ t zero_time && leb_ℤ zero_time t

-- The times at which the value exceeds `current`, which then becomes that value.
unfoldable pub found_from : Value → List Sample → List ℤ
found_from current [] = []
found_from current (p ∷ points) =
    let later = found_from (if gtb p.v current then p.v else current) points in
    if gtb p.v current then p.t ∷ later else later

unfoldable pub version_events : List Sample → ℤ × ℤ × ℤ
version_events [] = (zero_time, zero_time, zero_time)
version_events (p ∷ points) =
    let found = found_from p.v points in
    (get_or found 0 zero_time, get_or found 1 zero_time, get_or found 2 zero_time)

unfoldable pub max_from : Value → List Sample → Value
max_from best [] = best
max_from best (p ∷ points) = max_from (if gtb p.v best then p.v else best) points

unfoldable pub max_value : List Sample → Value
max_value points = max_from (number (pos 0)) points

unfoldable pub format_ts : Library → ℤ → String
format_ts lib t = if is_zero t then "unknown" else lib.rfc3339 t

-- A number of seconds in nanoseconds, cut off at the ends of an int64 as `Sub` does.
abbrev pub saturated : ℤ → ℤ
saturated (pos n) = pos (min (n * 1000000000) (2 ^ 63 - 1))
saturated (negsuc n) = negsuc (min (suc n * 1000000000 - 1) (2 ^ 63 - 1))

-- `a.Sub(b)`
unfoldable pub sub : ℤ → ℤ → ℤ
sub a b = saturated (sub_ℕ (pos_part a + neg_part b) (pos_part b + neg_part a))

-- The delay from one event to the next, 0 where one of them is missing.
unfoldable pub delay : ℤ → ℤ → ℤ
delay before after = if not (is_zero before) && not (is_zero after) then sub after before else pos 0

unfoldable pub summarize : ℤ → ℤ → List Sample → List Sample → Result
summarize start stop state_points ttft_points =
    let (suspect, dead, ready) = version_events state_points in
    record {
      start = start;
      stop = stop;
      suspect_at = suspect;
      dead_at = dead;
      ready_at = ready;
      mttd = delay suspect dead;
      mttr = delay dead ready;
      p99_ttft = max_value ttft_points;
      path = "";
    }

abbrev ttft_query : String
ttft_query = "histogram_quantile(0.99, sum(rate(ttft_seconds_bucket[5m])) by (le))"

-- The lines of the file.
unfoldable pub report : Library → Result → List String
report lib r =
    "# Chaos Report"
    ∷ ""
    ∷ ("Window: " ++ₛ lib.rfc3339 r.start ++ₛ " to " ++ₛ lib.rfc3339 r.stop)
    ∷ ""
    ∷ "| Metric | Value |"
    ∷ "|---|---|"
    ∷ ("| Suspect at | " ++ₛ format_ts lib r.suspect_at ++ₛ " |")
    ∷ ("| Dead at | " ++ₛ format_ts lib r.dead_at ++ₛ " |")
    ∷ ("| Ready at | " ++ₛ format_ts lib r.ready_at ++ₛ " |")
    ∷ ("| MTTD (suspect-to-dead) | " ++ₛ lib.duration r.mttd ++ₛ " |")
    ∷ ("| MTTR (dead-to-ready) | " ++ₛ lib.duration r.mttr ++ₛ " |")
    ∷ ("| TTFT p99 during window (s) | " ++ₛ lib.fixed4 r.p99_ttft ++ₛ " |")
    ∷ ""
    ∷ ("Source queries: `cluster_state_version` for state transitions, `" ++ₛ ttft_query
        ++ₛ "` for TTFT p99.")
    ∷ []

-- `filepath.Join` of a directory that has no slash at its end.
unfoldable pub generate : Library → World → String → ℤ → ℤ → String → Option Result
generate lib w prom_url start stop out_dir = do
  let prom = if prom_url =ₛ "" then "http://localhost:9090" else prom_url
  let directory = if out_dir =ₛ "" then "reports" else out_dir
  state_points ← fetch_matrix lib w prom "cluster_state_version" start stop 15
  ttft_points ← fetch_matrix lib w prom ttft_query start stop 15
  let res = summarize start stop state_points ttft_points
  let path = directory ++ₛ "/report-" ++ₛ lib.compact start ++ₛ ".md"
  done ← if w.make_directory directory then some (w.write_file path (report lib res)) else none
  if done then some (record res { path = path }) else none
