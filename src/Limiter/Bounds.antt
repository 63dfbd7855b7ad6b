-- ===== src/Limiter/Bounds.antt =====
-- The limits that `New` settles on, and the bounds that every method of the limiter keeps.
use llms_chaos.Prelude.{ℕ, ◌≤◌, ◌≡◌, refl, String, List, [], ◌∷◌, arith}
use llms_chaos.Prelude.Int.{ℤ, pos}
use llms_chaos.Prelude.Dict.{lookup}
use llms_chaos.Limiter.{
  Call, acquires, releases, succeeds, times_out, clamp_limits, new, cap_of, inflight_of, run,
}
use llms_chaos.Limiter.Slots.{Slot, slot, slot_step, slot_run, calls_of, run-slot}

-- For any arguments, the least limit of a new limiter is at least 1, the initial one lies between
-- the two, and nothing is lost in reading the three as natural numbers.
pub new_limits :
    (first lo hi : ℤ)
    → let l = new first lo hi in
      let c = clamp_limits first lo hi in
      (1 ≤ l.min)
      × (l.min ≤ l.initial)
      × (l.initial ≤ l.max)
      × (pos l.min ≡ c.min)
      × (pos l.initial ≡ c.initial)
      × (pos l.max ≡ c.max)
unfolding new
new_limits first lo hi = ground arith

abbrev Fits : ℕ → ℕ → Slot → Type 0
Fits lo hi s = (lo ≤ s.cap) × (s.cap ≤ hi) × (s.busy ≤ hi)

slot_step-Fits :
    (lo hi : ℕ) (s : Slot) (c : Call) → lo ≤ hi → Fits lo hi s → Fits lo hi (slot_step lo hi s c)
slot_step-Fits lo hi s acquires h f = ground arith
slot_step-Fits lo hi s releases h f = ground arith
slot_step-Fits lo hi s succeeds h f = ground arith
slot_step-Fits lo hi s times_out h f = ground arith

slot_run-Fits :
    (lo hi : ℕ) (s : Slot) (cs : List Call)
    → lo ≤ hi
    → Fits lo hi s
    → Fits lo hi (slot_run lo hi s cs)
slot_run-Fits lo hi s [] h f = f
slot_run-Fits lo hi s (c ∷ cs) h f =
    slot_run-Fits lo hi (slot_step lo hi s c) cs h (slot_step-Fits lo hi s c h f)

new-slot :
    (first lo hi : ℤ) (id : String)
    → slot (new first lo hi) id ≡ record { cap = (new first lo hi).initial; busy = 0 }
unfolding slot new lookup
new-slot first lo hi id = refl

run-Fits :
    (first lo hi : ℤ) (id : String) (cs : List (String × Call))
    → let l = new first lo hi in Fits l.min l.max (slot (run l cs) id)
run-Fits first lo hi id cs =
    let (positive, low, high, _, _, _) = new_limits first lo hi in
    let l = new first lo hi in
    let start : Fits l.min l.max (slot l id) =
      rw (new-slot first lo hi id) (low, high, omega arith) in
    rw (run-slot l id cs)
      (slot_run-Fits l.min l.max (slot l id) (calls_of id cs) (omega arith) start)

-- A limiter made with any arguments, after any calls for any workers, holds the limit of every
-- worker between its least and greatest limit, which is at least 1, and never has more requests in
-- flight to a worker than the greatest limit.
pub run_bounds :
    (first lo hi : ℤ) (id : String) (cs : List (String × Call))
    → let l = new first lo hi in
      (1 ≤ cap_of (run l cs) id)
      × (l.min ≤ cap_of (run l cs) id)
      × (cap_of (run l cs) id ≤ l.max)
      × (inflight_of (run l cs) id ≤ l.max)
unfolding slot
run_bounds first lo hi id cs =
    let fits = run-Fits first lo hi id cs in
    let limits = new_limits first lo hi in (omega arith, fits.0, fits.1, fits.2)
