-- ===== src/Gateway/Identifiers.antt =====
-- The identifiers that `RequestID` of gateway/internal/middleware/middleware.go gives to requests.
use llms_chaos.Prelude.{
  ℕ, zero, suc, ◌+◌, ◌%◌, ◌^◌, ◌≤◌, ◌<◌, ◌≡◌, ◌≢◌, sym, ap, ◌∙◌, String, ◌=ₛ◌, ◌++ₛ◌, List, [], ◌∷◌,
  some, arith, get_elem?, if◌then◌else◌, Bool-cases, inl, inr, eq_iff,
}
use mathlib.Core.Option.{some-injective}
use text.Mathlib.TextLemmas.{append_cancel_left}
use llms_chaos.Prelude.Decimal.{show, show-injective}
use llms_chaos.Gateway.{new_id, request_id, request_ids}

-- How many of the requests before place `i` have no identifier of their own.
abbrev given : ℕ → List String → ℕ
given zero headers = 0
given (suc i) [] = 0
given (suc i) (header ∷ headers) = (if header =ₛ "" then 1 else 0) + given i headers

id_at :
    (counter i : ℕ) (headers : List String)
    → counter < 2 ^ 64
    → get_elem? headers i ≡ some ""
    → get_elem? (request_ids counter headers) i
      ≡ some ("req-" ++ₛ show ((counter + given i headers + 1) % 2 ^ 64))
unfolding request_ids request_id new_id
id_at counter i [] c h = cc
id_at counter zero (header ∷ headers) c h =
    rw ((eq_iff header "").1 (some-injective header "" h))
      (ap (λ n. some ("req-" ++ₛ show n)) (omega arith))
id_at counter (suc i) (header ∷ headers) c h = elim (Bool-cases (header =ₛ "")) [
  | inl empty ↦ rw empty (
      id_at ((counter + 1) % 2 ^ 64) i headers (omega arith) h
      ∙ ap (λ n. some ("req-" ++ₛ show n)) (omega arith))
  | inr own ↦
      rw own (id_at counter i headers c h ∙ ap (λ n. some ("req-" ++ₛ show n)) (omega arith))
]

given_bound : (i : ℕ) (headers : List String) → given i headers ≤ i
given_bound zero headers = omega arith
given_bound (suc i) [] = omega arith
given_bound (suc i) (header ∷ headers) = ground (arith, given_bound i headers)

given_grows :
    (i j : ℕ) (headers : List String)
    → i < j
    → get_elem? headers i ≡ some ""
    → given i headers < given j headers
given_grows i j [] lt h = cc
given_grows i zero (header ∷ headers) lt h = absurd (omega arith)
given_grows zero (suc j) (header ∷ headers) lt h =
    rw ((eq_iff header "").1 (some-injective header "" h)) (omega arith)
given_grows (suc i) (suc j) (header ∷ headers) lt h =
    omega (arith, given_grows i j headers (omega arith) h)

-- Two requests that come without an identifier, the second less than 2 ^ 64 requests behind the start,
-- are given different ones.
pub request_ids_distinct :
    (counter i j : ℕ) (headers : List String) (x y : String)
    → counter < 2 ^ 64
    → i < j
    → j < 2 ^ 64
    → get_elem? headers i ≡ some ""
    → get_elem? headers j ≡ some ""
    → get_elem? (request_ids counter headers) i ≡ some x
    → get_elem? (request_ids counter headers) j ≡ some y
    → x ≢ y
request_ids_distinct counter i j headers x y c lt bound hi hj gx gy same =
    let text_x = some-injective _ x (sym (id_at counter i headers c hi) ∙ gx) in
    let text_y = some-injective _ y (sym (id_at counter j headers c hj) ∙ gy) in
    let numbers = show-injective _ _ (append_cancel_left "req-" _ _ (text_x ∙ same ∙ sym text_y)) in
    absurd (omega (arith, numbers, given_grows i j headers lt hi, given_bound j headers))
