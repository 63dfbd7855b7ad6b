-- ===== src/Limiter/Recovery.antt =====
-- How the limit of one worker moves under a row of equal outcomes.
use llms_chaos.Prelude.{
  ℕ, zero, suc, ◌+◌, ◌/◌, ◌^◌, ◌≤◌, ◌≡◌, refl, sym, ◌∙◌, ap, String, arith, eq_refl, min, max,
  replicate,
}
use native.Mathlib.Nat.{pow-succ', div-div-eq-div-mul, div-le_self}
use llms_chaos.Limiter.{Limiter, Call, succeeds, times_out, cap_of, run}
use llms_chaos.Limiter.Slots.{Slot, slot, slot_step, slot_run, calls_of, run-slot}

calls_of-replicate :
    (id : String) (c : Call) (k : ℕ) → calls_of id (replicate k (id, c)) ≡ replicate k c
calls_of-replicate id c zero = refl
calls_of-replicate id c (suc k) = simp (eq_refl, calls_of-replicate id c k)

slot_run-succeeds :
    (lo hi : ℕ) (s : Slot) (k : ℕ)
    → s.cap ≤ hi
    → (slot_run lo hi s (replicate k succeeds)).cap ≡ min hi (s.cap + k)
slot_run-succeeds lo hi s zero h = omega arith
slot_run-succeeds lo hi s (suc k) h =
    ground (arith, slot_run-succeeds lo hi (slot_step lo hi s succeeds) k)

half_pow : (n k : ℕ) → n / 2 / 2 ^ k ≡ n / 2 ^ suc k
half_pow n k = div-div-eq-div-mul n 2 (2 ^ k) ∙ sym (ap (λ (t : ℕ). n / t) (pow-succ' 2 k))

max_div : (lo x p : ℕ) → max lo (max lo x / p) ≡ max lo (x / p)
max_div lo x p = grind (arith, div-le_self)

-- `l` is any limiter whose limits are in order, as `New` and every method leave them.
slot_run-times_out :
    (lo hi : ℕ) (s : Slot) (k : ℕ)
    → lo ≤ s.cap
    → (slot_run lo hi s (replicate k times_out)).cap ≡ max lo (s.cap / 2 ^ k)
slot_run-times_out lo hi s zero h = omega arith
slot_run-times_out lo hi s (suc k) h =
    slot_run-times_out lo hi (slot_step lo hi s times_out) k (omega arith)
    ∙ max_div lo (s.cap / 2) (2 ^ k)
    ∙ ap (max lo) (half_pow s.cap k)

-- From a limit that is at most the greatest one, k successes in a row add k to it, up to the
-- greatest limit.
pub run-succeeds :
    (l : Limiter) (id : String) (k : ℕ)
    → cap_of l id ≤ l.max
    → cap_of (run l (replicate k (id, succeeds))) id ≡ min l.max (cap_of l id + k)
unfolding slot
run-succeeds l id k h =
    ap (λ (s : Slot). s.cap) (run-slot l id (replicate k (id, succeeds)))
    ∙ rw (calls_of-replicate id succeeds k) (slot_run-succeeds l.min l.max (slot l id) k h)

-- From a limit that is at least the least one, k timeouts in a row divide it by 2 to the k, down to
-- the least limit.
pub run-times_out :
    (l : Limiter) (id : String) (k : ℕ)
    → l.min ≤ cap_of l id
    → cap_of (run l (replicate k (id, times_out))) id ≡ max l.min (cap_of l id / 2 ^ k)
unfolding slot
run-times_out l id k h =
    ap (λ (s : Slot). s.cap) (run-slot l id (replicate k (id, times_out)))
    ∙ rw (calls_of-replicate id times_out k) (slot_run-times_out l.min l.max (slot l id) k h)
