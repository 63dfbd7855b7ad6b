-- ===== src/Hedge/Seconds/Fuel.antt =====
-- The fuel of the scaling behind the float64s of gateway/internal/hedge/hedge.go is enough.
use native.Mathlib.Numerals.{unary_clauses}
use llms_chaos.Prelude.{
  ℕ, zero, suc, ◌*◌, ◌^◌, ◌≤◌, ◌<◌, ◌≡◌, refl, ◌∙◌, ltb, leb, Bool-cases, inl, inr, arith,
}
use llms_chaos.Hedge.Seconds.{Float, nearest, scale_up, scale_down}

-- The fraction is doubled so often that its whole part has 53 bits, and is rounded then.
abbrev IsDoubled : ℕ → ℕ → ℕ → Float → Type 0
IsDoubled num den by v =
    (n : ℕ) × (k : ℕ) × (n ≡ 2 ^ k * num)
    × (2 ^ 52 * den ≤ n)
    × (v.num ≡ nearest n den)
    × (v.den ≡ 2 ^ k * by)

-- It is halved so often that its whole part has no more than 53 bits, and is rounded then.
abbrev IsHalved : ℕ → ℕ → ℕ → Float → Type 0
IsHalved num den by v =
    (d : ℕ) × (b : ℕ) × (k : ℕ) × (d ≡ 2 ^ k * den)
    × (b ≡ 2 ^ k * by)
    × (num < 2 ^ 53 * d)
    × (v.num ≡ b * nearest num d)
    × (v.den ≡ 1)

double : (k n : ℕ) → 2 ^ k * (2 * n) ≡ 2 ^ suc k * n
double k n = simp unary_clauses (omega arith)

scale_up-IsDoubled :
    (fuel num den by : ℕ)
    → 2 ^ 52 * den ≤ 2 ^ fuel * num
    → IsDoubled num den by (scale_up fuel num den by)
unfolding scale_up
scale_up-IsDoubled zero num den by h = (num, 0, omega arith, omega (arith, h), refl, omega arith)
scale_up-IsDoubled (suc fuel) num den by h = elim (Bool-cases (ltb num (2 ^ 52 * den))) [
  | inl small ↦
      let (n, k, e, big, v, d) =
        scale_up-IsDoubled fuel (2 * num) den (2 * by) (omega (arith, h, double fuel num)) in
      rw small (n, suc k, e ∙ double k num, big, v, d ∙ double k by)
  | inr large ↦ rw large (num, 0, omega arith, ground arith, refl, omega arith)
]

scale_down-IsHalved :
    (fuel num den by : ℕ)
    → num < 2 ^ 53 * (2 ^ fuel * den)
    → IsHalved num den by (scale_down fuel num den by)
unfolding scale_down
scale_down-IsHalved zero num den by h =
    (den, by, 0, omega arith, omega arith, omega (arith, h), refl, refl)
scale_down-IsHalved (suc fuel) num den by h = elim (Bool-cases (leb (2 ^ 53 * den) num)) [
  | inl great ↦
      let (d, b, k, e, e', small, v, one) =
        scale_down-IsHalved fuel num (2 * den) (2 * by) (omega (arith, h, double fuel den)) in
      rw great (d, b, suc k, e ∙ double k den, e' ∙ double k by, small, v, one)
  | inr small ↦ rw small (den, by, 0, omega arith, omega arith, ground arith, refl, refl)
]

-- From 10 ^ -9 on, 82 doublings are enough.
doubled : (num den : ℕ) → den ≤ 1_000_000_000 * num → IsDoubled num den 1 (scale_up 82 num den 1)
doubled num den h = scale_up-IsDoubled 82 num den 1 (omega (arith, h))

-- Below 2 ^ 64, 11 halvings are.
halved : (num den : ℕ) → num < 2 ^ 64 * den → IsHalved num den 1 (scale_down 11 num den 1)
halved num den h = scale_down-IsHalved 11 num den 1 (omega (arith, h))
