-- ===== src/Limiter/Slots.antt =====
-- What the limiter promises of one worker: a pair of a limit and a count, moved by the calls on that
-- worker alone. The limiter of gateway/internal/limiter/limiter.go implements it for every worker.
use llms_chaos.Prelude.{
  ℕ, suc, ◌-◌, ◌/◌, ◌≡◌, refl, String, List, [], ◌∷◌, arith, ltb, if◌then◌else◌, ◌&&◌, ◌=ₛ◌, eq_iff,
  max,
}
use llms_chaos.Prelude.Dict.{lookup, lookup-insert}
use llms_chaos.Limiter.{
  Limiter, Call, acquires, releases, succeeds, times_out, try_acquire, release, on_success,
  on_timeout, cap_of, inflight_of, step, run, or_zero, or_else,
}

pub record Slot : Type 0 where
  pub cap : ℕ
  pub busy : ℕ

-- Additive increase, multiplicative decrease, between the two limits; a slot is taken below the cap.
abbrev pub slot_step : ℕ → ℕ → Slot → Call → Slot
slot_step lo hi s acquires = if ltb s.busy s.cap then record s { busy = suc s.busy } else s
slot_step lo hi s releases = record s { busy = s.busy - 1 }
slot_step lo hi s succeeds = record s { cap = if ltb s.cap hi then suc s.cap else s.cap }
slot_step lo hi s times_out = record s { cap = max lo (s.cap / 2) }

abbrev pub slot_run : ℕ → ℕ → Slot → List Call → Slot
slot_run lo hi s [] = s
slot_run lo hi s (c ∷ cs) = slot_run lo hi (slot_step lo hi s c) cs

abbrev pub calls_of : String → List (String × Call) → List Call
calls_of id [] = []
calls_of id ((j, c) ∷ cs) = if j =ₛ id then c ∷ calls_of id cs else calls_of id cs

unfoldable pub slot : Limiter → String → Slot
unfolding cap_of inflight_of
slot l id = record { cap = cap_of l id; busy = inflight_of l id }

pub step_frame :
    (l : Limiter) (c : String × Call)
    → ((step l c).min ≡ l.min) × ((step l c).max ≡ l.max) × ((step l c).initial ≡ l.initial)
unfolding step
step_frame l (id, acquires) = ground arith
step_frame l (id, releases) = ground arith
step_frame l (id, succeeds) = ground arith
step_frame l (id, times_out) = ground arith

step-slot :
    (l : Limiter) (id j : String) (c : Call)
    → slot (step l (id, c)) j ≡ (if id =ₛ j then slot_step l.min l.max (slot l j) c else slot l j)
unfolding step slot
step-slot l id j acquires = ground (
  arith,
  eq_iff id j,
  lookup-insert id j l.initial l.caps,
  lookup-insert id j (suc (or_zero (lookup id l.inflight))) l.inflight,
)
step-slot l id j releases =
    ground (arith, eq_iff id j, lookup-insert id j (or_zero (lookup id l.inflight) - 1) l.inflight)
step-slot l id j succeeds =
    let c = or_else (lookup id l.caps) l.initial in
    ground (arith, eq_iff id j, lookup-insert id j (if ltb c l.max then suc c else c) l.caps)
step-slot l id j times_out =
    let c = or_else (lookup id l.caps) l.initial / 2 in
    ground (arith, eq_iff id j, lookup-insert id j (if ltb c l.min then l.min else c) l.caps)

-- After any calls for any workers, a worker's limit and count are those that the calls for that
-- worker alone bring about by the rule of `slot_step`, so no call moves another worker's.
pub run-slot :
    (l : Limiter) (id : String) (cs : List (String × Call))
    → slot (run l cs) id ≡ slot_run l.min l.max (slot l id) (calls_of id cs)
unfolding run
run-slot l id [] = refl
run-slot l id ((j, c) ∷ cs) =
    ground (arith, step_frame l (j, c), step-slot l j id c, run-slot (step l (j, c)) id cs)

-- The counts behind each method, for any worker.
pub inflight-try_acquire :
    (l : Limiter) (id j : String)
    → inflight_of (try_acquire l id).0 j
      ≡ (if (try_acquire l id).1 && (id =ₛ j) then suc (inflight_of l j) else inflight_of l j)
unfolding try_acquire inflight_of
inflight-try_acquire l id j =
    ground
      (arith, eq_iff id j, lookup-insert id j (suc (or_zero (lookup id l.inflight))) l.inflight)

pub inflight-release :
    (l : Limiter) (id j : String)
    → inflight_of (release l id) j ≡ (if id =ₛ j then inflight_of l j - 1 else inflight_of l j)
unfolding release inflight_of
inflight-release l id j =
    ground (arith, eq_iff id j, lookup-insert id j (or_zero (lookup id l.inflight) - 1) l.inflight)

pub inflight_kept :
    (l : Limiter) (id j : String)
    → (inflight_of (on_success l id) j ≡ inflight_of l j)
      × (inflight_of (on_timeout l id) j ≡ inflight_of l j)
unfolding on_success on_timeout inflight_of
inflight_kept l id j = (refl, refl)
