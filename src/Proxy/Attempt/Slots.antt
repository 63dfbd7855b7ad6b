-- ===== src/Proxy/Attempt/Slots.antt =====
-- The limiter's slots that an attempt holds (proxy.go, `primaryFn`, `secondaryFn`, `cleanup`): one for
-- a worker while a call dials it, while its outcome lies in a channel, and while it is the result
-- that the race returned.
use llms_chaos.Prelude.{
  ℕ, suc, ◌+◌, ◌-◌, ◌≤◌, ◌≡◌, Bool, true, false, ◌&&◌, String, ◌=ₛ◌, Option, none, some, arith,
  if◌then◌else◌, Option-cases, inl, inr,
}
use llms_chaos.Errors.{Result, ok, err}
use llms_chaos.Hedge.Race.{Branch, Main}
use llms_chaos.Hedge.Race.Accounts.{of_result, of_branch, of_main}
use llms_chaos.Limiter.{Limiter, inflight_of}
use llms_chaos.Limiter.Slots.{inflight-try_acquire, inflight-release, inflight_kept}
use llms_chaos.Proxy.{Forwarder}
use llms_chaos.Proxy.Attempt.{
  Attempt, Call, dialing, Begun, goes, fails, FirstOutcome, Dialed, acquire, give_back,
  note_timeout, begin_primary, begin_secondary, end_dial, cleanup, allowed, claim_allowed,
}
use llms_chaos.Router.{pick_except}

abbrev pub one_if : Bool → ℕ
one_if b = if b then 1 else 0

abbrev pub call_holds : String → Call → ℕ
call_holds id (dialing j) = one_if (j =ₛ id)
call_holds id _ = 0

abbrev pub outcome_holds : String → FirstOutcome → ℕ
outcome_holds id o = one_if (o.worker =ₛ id)

abbrev pub branch_holds : String → Branch Call FirstOutcome → ℕ
branch_holds id = of_branch (call_holds id) (outcome_holds id)

abbrev pub main_holds : String → Main FirstOutcome → ℕ
main_holds id = of_main {P = Call} (call_holds id) (outcome_holds id)

abbrev pub attempt_holds : String → Attempt → ℕ
attempt_holds id s = branch_holds id s.primary + branch_holds id s.secondary + main_holds id s.main

-- What its two calls hold, without the result that it returned.
abbrev pub calls_hold : String → Attempt → ℕ
calls_hold id s = branch_holds id s.primary + branch_holds id s.secondary

-- The limiter's count of requests in flight to a worker; without a limiter there is none.
abbrev pub limiter_count : String → Option Limiter → ℕ
limiter_count id none = 0
limiter_count id (some l) = inflight_of l id

abbrev pub count_of : String → Forwarder → ℕ
count_of id f = limiter_count id f.limiter

abbrev pub has_limiter : Forwarder → Bool
has_limiter f = elim f.limiter [ none ↦ false | some _ ↦ true ]

acquire-count :
    (f : Forwarder) (id j : String)
    → has_limiter f ≡ true
    → let (f', got) = acquire f id in
      (has_limiter f' ≡ true)
      × (count_of j f' ≡ (if got && (id =ₛ j) then suc (count_of j f) else count_of j f))
unfolding acquire
acquire-count f id j h = elim (Option-cases f.limiter) [
  | inl e ↦ absurd (ground (arith, e))
  | inr (l, e) ↦ ground (arith, e, inflight-try_acquire l id j)
]

pub give_back-count :
    (f : Forwarder) (id j : String)
    → has_limiter f ≡ true
    → (has_limiter (give_back f id) ≡ true)
      × (count_of j (give_back f id) ≡ (if id =ₛ j then count_of j f - 1 else count_of j f))
unfolding give_back
give_back-count f id j h = elim (Option-cases f.limiter) [
  | inl e ↦ absurd (ground (arith, e))
  | inr (l, e) ↦ ground (arith, e, inflight-release l id j)
]

pub note_timeout-count :
    (f : Forwarder) (id j : String)
    → has_limiter f ≡ true
    → (has_limiter (note_timeout f id) ≡ true) × (count_of j (note_timeout f id) ≡ count_of j f)
unfolding note_timeout
note_timeout-count f id j h = elim (Option-cases f.limiter) [
  | inl e ↦ absurd (ground (arith, e))
  | inr (l, e) ↦ ground (arith, e, inflight_kept l id j)
]

-- What a call holds once it has begun.
abbrev pub begun_holds : String → Begun → ℕ
begun_holds id (goes c) = call_holds id c
begun_holds id (fails e) = 0

pub begin_primary-count :
    (f : Forwarder) (id j : String)
    → has_limiter f ≡ true
    → let (f', b) = begin_primary f id in
      (has_limiter f' ≡ true) × (count_of j f' ≡ count_of j f + begun_holds j b)
unfolding begin_primary
begin_primary-count f id j h = ground (arith, acquire-count f id j h)

claim_allowed-count :
    (f : Forwarder) (may : Bool) (id j : String)
    → has_limiter f ≡ true
    → let (f', c) = claim_allowed (f, may) id in
      (has_limiter f' ≡ true) × (count_of j f' ≡ count_of j f + begun_holds j c)
claim_allowed-count f true id j h = ground (arith, acquire-count f id j h)
claim_allowed-count f false id j h = ground arith

pub begin_secondary-count :
    (f : Forwarder) (id j : String) (a b now : ℕ)
    → has_limiter f ≡ true
    → let (f', c) = begin_secondary f id a b now in
      (has_limiter f' ≡ true) × (count_of j f' ≡ count_of j f + begun_holds j c)
unfolding begin_secondary
begin_secondary-count f id j a b now h = elim (Option-cases (pick_except f.pool id a b)) [
  | inl e ↦ rw (e, begin_secondary) (h, omega arith)
  | inr (alt, e) ↦
      let (f', may) = allowed f alt.id now in
      rw (e, begin_secondary) (claim_allowed-count f' may alt.id j h)
]

-- A slot is given back only where one is held, so the count falls by exactly that one.
pub end_dial-count :
    (f : Forwarder) (id j : String) (r : Result Dialed)
    → has_limiter f ≡ true
    → call_holds j (dialing id) ≤ count_of j f
    → let (f', out) = end_dial f id r in
      (has_limiter f' ≡ true)
      × (count_of j f' + call_holds j (dialing id) ≡ count_of j f + of_result (outcome_holds j) out)
unfolding end_dial
end_dial-count f id j (ok d) h held = ground arith
end_dial-count f id j (err e) h held =
    ground (arith, give_back-count f id j h, note_timeout-count (give_back f id) id j)

pub cleanup-count :
    (f : Forwarder) (o : FirstOutcome) (j : String)
    → has_limiter f ≡ true
    → outcome_holds j o ≤ count_of j f
    → (has_limiter (cleanup f o) ≡ true)
      × (count_of j (cleanup f o) + outcome_holds j o ≡ count_of j f)
unfolding cleanup
cleanup-count f o j h held = ground (arith, give_back-count f o.worker j h)
