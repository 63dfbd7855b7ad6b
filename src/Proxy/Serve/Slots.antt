-- ===== src/Proxy/Serve/Slots.antt =====
-- The limiter's slots that a request holds (proxy.go, `Serve`): those of the calls of its races, that
-- of the result that a race has handed to the handler, and that of the worker whose reply it streams.
use llms_chaos.Prelude.{
  ℕ, suc, ◌+◌, ◌≡◌, refl, ap, Bool, true, false, String, ◌=ₛ◌, Option, none, some, arith, ltb, ◌==◌,
  Bool-cases, Option-cases, inl, inr,
}
use llms_chaos.Errors.{is_busy, Result, ok, err}
use llms_chaos.Hedge.Race
use llms_chaos.Hedge.Race.{Main, returned, gave_up}
use llms_chaos.Hedge.Race.Accounts.{of_result}
use llms_chaos.Hedge.Race.Sound.{is_settled}
use llms_chaos.Middleware.{retry}
use llms_chaos.Proxy.{Forwarder}
use llms_chaos.Proxy.Attempt.{FirstOutcome, allowed}
use llms_chaos.Proxy.Attempt.Slots.{
  outcome_holds, main_holds, attempt_holds, calls_hold, limiter_count, count_of, has_limiter,
}
use llms_chaos.Router.{Worker, pick_except}
use llms_chaos.Proxy.Serve.{
  Request, Phase, choosing, racing, streaming, replied, no_workers, overloaded, client_gone,
  no_race, next_attempt, start_race, or_pick_again, choose_primary, choose, go_on_with, try_primary,
  after_race,
}
use llms_chaos.Proxy.Serve.Orderly.{
  IsOrderly, is_racing, is_choosing, start_race-IsOrderly, leave-IsOrderly, next_attempt-IsOrderly,
  prev-IsOrderly,
}

-- What the handler itself answers for in a phase, the main goroutine of its race standing at `m`.
abbrev pub at_hand : String → Phase → Main FirstOutcome → ℕ
at_hand id racing m = main_holds id m
at_hand id (streaming o) m = outcome_holds id o
at_hand id _ m = 0

abbrev pub request_holds : String → Request → ℕ
request_holds id r = calls_hold id r.race + calls_hold id r.older + at_hand id r.phase r.race.main

-- The forwarder `f` with the request `r` has become `f'` with `r'`, for the slots of worker `j`.
pub record Kept (j : String) (f : Forwarder) (r : Request) (f' : Forwarder) (r' : Request)
    : Type 0 where
  pub limited : has_limiter f' ≡ true
  pub orderly : IsOrderly r'
  pub balance : count_of j f' + request_holds j r ≡ count_of j f + request_holds j r'

pub at_hand-moved :
    (j : String) (ph : Phase) (m m' : Main FirstOutcome)
    → (is_racing ph ≡ false → m' ≡ m)
    → at_hand j ph m' + main_holds j m ≡ at_hand j ph m + main_holds j m'
at_hand-moved j racing m m' same = omega arith
at_hand-moved j choosing m m' same = omega (arith, ap (main_holds j) (same refl))
at_hand-moved j (streaming o) m m' same = omega (arith, ap (main_holds j) (same refl))
at_hand-moved j (replied x) m m' same = omega (arith, ap (main_holds j) (same refl))

no_race-holds : (j : String) → calls_hold j no_race ≡ 0
unfolding Race.start
no_race-holds j = refl

start_race-holds :
    (j : String) (f : Forwarder) (r : Request) (id : String)
    → attempt_holds j (start_race f r id).race ≡ 0
unfolding Race.start
start_race-holds j f r id = elim (Option-cases f.hedge) [
  | inl e ↦ rw e (ground arith)
  | inr (b, e) ↦ rw e (ground arith)
]

pub next_attempt-holds :
    (j : String) (r : Request)
    → request_holds j (next_attempt r) ≡ calls_hold j r.race + calls_hold j r.older
next_attempt-holds j r = elim (Bool-cases (ltb (suc r.attempt) 2)) [
  | inl e ↦ rw e (omega arith)
  | inr e ↦ rw e (omega arith)
]

pick_again-limiter :
    (f : Forwarder) (o : Option Worker) (key : String) (i j : ℕ)
    → (or_pick_again f o key i j).0.limiter ≡ f.limiter
pick_again-limiter f none key i j = refl
pick_again-limiter f (some w) key i j = refl

choose_primary-limiter :
    (f : Forwarder) (r : Request) (i j k l : ℕ) → (choose_primary f r i j k l).0.limiter ≡ f.limiter
unfolding choose_primary
choose_primary-limiter f r i j k l =
    let f' = record f { metrics = retry f.metrics } in
    let again = pick_again-limiter f' (pick_except f'.pool r.prev_id i j) r.session_key k l in
    elim (Bool-cases (r.attempt == 0)) [
      | inl e ↦ rw (e, choose_primary) refl
      | inr e ↦ elim (Bool-cases (r.prev_id =ₛ "")) [
        | inl e' ↦ rw (e, e', choose_primary) refl
        | inr e' ↦ rw (e, e', choose_primary) again
      ]
    ]

module _ (j : String) (f : Forwarder) (r : Request) (limited : has_limiter f ≡ true)
    (o : IsOrderly r) where
  -- A forwarder with the same limiter counts the same.
  same_count :
      (g : Forwarder)
      → g.limiter ≡ f.limiter
      → (has_limiter g ≡ true) × (count_of j g ≡ count_of j f)
  same_count g e = (ground (arith, e), ap (limiter_count j) e)

  try_primary-Kept :
      (g : Forwarder) (may : Bool) (id : String)
      → g.limiter ≡ f.limiter
      → is_choosing r.phase ≡ true
      → let p = try_primary (g, may) (record r { prev_id = id }) id in Kept j f r p.0 p.1
  try_primary-Kept g true id e c =
      let r2 = record r { prev_id = id } in
      let (has, count) = same_count g e in
      record {
        limited = has;
        orderly = start_race-IsOrderly r2 (prev-IsOrderly r o id) g id c;
        balance = ground (
          arith,
          count,
          start_race-holds j g r2 id,
          no_race-holds j,
          ap (calls_hold j) (o.room c),
          c,
        );
      }
  try_primary-Kept g false id e c =
      let r2 = record r { prev_id = id } in
      let (has, count) = same_count g e in
      record {
        limited = has;
        orderly = next_attempt-IsOrderly r2 (prev-IsOrderly r o id) (o.settled (ground arith));
        balance = ground (arith, count, next_attempt-holds j r2, c);
      }

  go_on_with-Kept :
      (g : Forwarder) (w : Option Worker) (now : ℕ)
      → g.limiter ≡ f.limiter
      → is_choosing r.phase ≡ true
      → let p = go_on_with (g, w) r now in Kept j f r p.0 p.1
  go_on_with-Kept g none now e c =
      let (has, count) = same_count g e in
      record {
        limited = has;
        orderly =
            leave-IsOrderly r o (replied no_workers) r.written (o.settled (ground arith)) refl;
        balance = ground (arith, count, c);
      }
  go_on_with-Kept g (some w) now e c =
      try_primary-Kept (allowed g w.id now).0 (allowed g w.id now).1 w.id e c

  pub choose-Kept :
      (i k l m now : ℕ)
      → is_choosing r.phase ≡ true
      → let p = choose f r i k l m now in Kept j f r p.0 p.1
  unfolding choose
  choose-Kept i k l m now c =
      let p = choose_primary f r i k l m in
      go_on_with-Kept p.0 p.1 now (choose_primary-limiter f r i k l m) c

  pub after_race-Kept :
      (g : Forwarder) (res : Result FirstOutcome) (ctx_ended : Bool) (now : ℕ)
      → g.limiter ≡ f.limiter
      → is_racing r.phase ≡ true
      → is_settled r.race.main ≡ true
      → main_holds j r.race.main ≡ of_result (outcome_holds j) res
      → let p = after_race g r res ctx_ended now in Kept j f r p.0 p.1
  unfolding after_race
  after_race-Kept g (ok x) ctx_ended now e c done main =
      let (has, count) = same_count g e in
      record {
        limited = has;
        orderly = leave-IsOrderly r o (streaming x) r.written done refl;
        balance = ground (arith, count, main, c);
      }
  after_race-Kept g (err x) ctx_ended now e c done main =
      let (has, count) = same_count g e in
      elim (Bool-cases (is_busy x)) [
        | inl busy ↦
            rw (busy, after_race)
              (record {
                limited = has;
                orderly = leave-IsOrderly r o (replied overloaded) r.written done refl;
                balance = ground (arith, count, main, c);
              })
        | inr other ↦ elim (Bool-cases ctx_ended) [
          | inl gone ↦
              rw (other, gone, after_race)
                (record {
                  limited = has;
                  orderly = leave-IsOrderly r o (replied client_gone) r.written done refl;
                  balance = ground (arith, count, main, c);
                })
          | inr there ↦
              rw (other, there, after_race)
                (record {
                  limited = has;
                  orderly = next_attempt-IsOrderly r o done;
                  balance = ground (arith, count, main, c, next_attempt-holds j r);
                })
        ]
      ]
