-- ===== src/Proxy/Serve/Orderly.antt =====
-- What a request's phase says of its races (proxy.go, `Serve`): the race of an attempt is over when
-- the handler has left it, and a race is put aside at most once.
use llms_chaos.Prelude.{
  ℕ, suc, ◌≡◌, refl, ◌∙◌, ap, subst, Bool, true, false, String, List, Option, none, some, arith,
  ltb, Bool-cases, inl, inr,
}
use llms_chaos.Errors.{Result, err}
use llms_chaos.Hedge.Race
use llms_chaos.Hedge.Race.{
  Race, Branch, running, Main, returned, gave_up, primary_moves, secondary_moves, primary_returns,
  secondary_returns, takes_primary, takes_secondary, timer_fires, context_ends, reaps,
}
use llms_chaos.Hedge.Race.Sound.{is_settled, step-is_settled, step-cleans, start-cleans}
use llms_chaos.Proxy.{Forwarder, ChatRequest, hedge_budget}
use llms_chaos.Proxy.Attempt.{
  Attempt, Call, will_dial, will_hedge, dialing, Begun, goes, fails, FirstOutcome, Dialed,
  RaceEvent, Side, begins, dials, takes, fires, cleans_up, ends, begin_primary, begin_secondary,
  begin_at, begun, dial_at, end_dial, left_over, clean_up, race_step, branch_at, moves, returns,
  take_event, attach,
}
use llms_chaos.Proxy.Attempt.Conserved.{attach-some}
use llms_chaos.Proxy.Serve.{
  Request, Phase, choosing, racing, no_race, next_attempt, start_race, receive, hedge_call,
}
use llms_chaos.Proxy.Stream.{Write}

-- Every step of an attempt is a step of its race.
abbrev pub Goes : Attempt → Attempt → Type 0
Goes s s' = (e : Race.Event Call FirstOutcome) × (Race.step s e ≡ some s')

module _ (f' : Forwarder) (s s' : Attempt) where
  begun-Goes :
      (side : Side) (f1 : Forwarder) (b : Begun) → begun side s (f1, b) ≡ some (f', s') → Goes s s'
  begun-Goes side f1 (goes c) h =
      (moves side c, (attach-some f1 f' (Race.step s (moves side c)) s' h).0)
  begun-Goes side f1 (fails e) h =
      (returns side (err e), (attach-some f1 f' (Race.step s (returns side (err e))) s' h).0)

  begin_at-Goes :
      (side : Side) (b : Branch Call FirstOutcome) (f : Forwarder) (i j now : ℕ)
      → begin_at side b f s i j now ≡ some (f', s')
      → Goes s s'
  begin_at-Goes side (running (will_dial id)) f i j now h =
      begun-Goes side (begin_primary f id).0 (begin_primary f id).1 h
  begin_at-Goes side (running (will_hedge id)) f i j now h =
      begun-Goes side (begin_secondary f id i j now).0 (begin_secondary f id i j now).1 h
  begin_at-Goes _ _ f i j now h = cc

  dial_at-Goes :
      (side : Side) (b : Branch Call FirstOutcome) (f : Forwarder) (r : Result Dialed)
      → dial_at side b f s r ≡ some (f', s')
      → Goes s s'
  dial_at-Goes side (running (dialing id)) f r h =
      let out = (end_dial f id r).1 in
      (
        returns side out,
        (attach-some (end_dial f id r).0 f' (Race.step s (returns side out)) s' h).0,
      )
  dial_at-Goes _ _ f r h = cc

  attach-Goes :
      (f1 : Forwarder) (e : Race.Event Call FirstOutcome)
      → attach f1 (Race.step s e) ≡ some (f', s')
      → Goes s s'
  attach-Goes f1 e h = (e, (attach-some f1 f' (Race.step s e) s' h).0)

  pub race_step-Goes :
      (f : Forwarder) (ev : RaceEvent) → race_step f s ev ≡ some (f', s') → Goes s s'
  unfolding race_step
  race_step-Goes f (begins side i j now) h = begin_at-Goes side (branch_at side s) f i j now h
  race_step-Goes f (dials side r) h = dial_at-Goes side (branch_at side s) f r h
  race_step-Goes f (takes side) h = attach-Goes f (take_event side) h
  race_step-Goes f fires h = attach-Goes f timer_fires h
  race_step-Goes f (ends e) h = attach-Goes f (context_ends e) h
  race_step-Goes f cleans_up h =
      attach-Goes (clean_up f (left_over s.reaper s.primary s.secondary)) reaps h

-- A race that is over before it began takes no step.
pub no_race_rests : (s' : Attempt) → Goes no_race s' → ⊥
unfolding Race.step Race.start
no_race_rests s' (primary_moves p, h) = cc
no_race_rests s' (secondary_moves p, h) = cc
no_race_rests s' (primary_returns r, h) = cc
no_race_rests s' (secondary_returns r, h) = cc
no_race_rests s' (takes_primary, h) = cc
no_race_rests s' (takes_secondary, h) = cc
no_race_rests s' (timer_fires, h) = cc
no_race_rests s' (context_ends e, h) = cc
no_race_rests s' (reaps, h) = cc

abbrev pub is_racing : Phase → Bool
is_racing racing = true
is_racing _ = false

abbrev pub is_choosing : Phase → Bool
is_choosing choosing = true
is_choosing _ = false

pub record IsOrderly (r : Request) : Type 0 where
  pub cleans : r.race.cleans ≡ true
  pub older_cleans : r.older.cleans ≡ true
  pub settled : is_racing r.phase ≡ false → is_settled r.race.main ≡ true
  pub older_settled : is_settled r.older.main ≡ true
  pub first : r.attempt ≡ 0 → r.older ≡ no_race
  pub unraced : r.attempt ≡ 0 → is_choosing r.phase ≡ true → r.race ≡ no_race
  pub room : is_choosing r.phase ≡ true → r.older ≡ no_race

pub receive-IsOrderly : (body : Option ChatRequest) (key : String) → IsOrderly (receive body key)
unfolding receive Race.start
receive-IsOrderly none key = record {
  cleans = refl;
  older_cleans = refl;
  settled = λ e. refl;
  older_settled = refl;
  first = λ e. refl;
  unraced = λ e x. refl;
  room = λ x. refl;
}
receive-IsOrderly (some req) key = record {
  cleans = refl;
  older_cleans = refl;
  settled = λ e. refl;
  older_settled = refl;
  first = λ e. refl;
  unraced = λ e x. refl;
  room = λ x. refl;
}

module _ (r : Request) (o : IsOrderly r) where
  pub race-IsOrderly : (s' : Attempt) → Goes r.race s' → IsOrderly (record r { race = s' })
  race-IsOrderly s' (e, went) = record {
    cleans = step-cleans r.race s' e went ∙ o.cleans;
    older_cleans = o.older_cleans;
    settled = λ x. ap is_settled (step-is_settled r.race s' e (o.settled x) went) ∙ o.settled x;
    older_settled = o.older_settled;
    first = o.first;
    unraced = λ z c. absurd (no_race_rests s' (subst (λ t. Goes t s') (o.unraced z c) (e, went)));
    room = o.room;
  }

  pub older-IsOrderly : (s' : Attempt) → Goes r.older s' → IsOrderly (record r { older = s' })
  older-IsOrderly s' (e, went) = record {
    cleans = o.cleans;
    older_cleans = step-cleans r.older s' e went ∙ o.older_cleans;
    settled = o.settled;
    older_settled =
        ap is_settled (step-is_settled r.older s' e o.older_settled went) ∙ o.older_settled;
    first = λ z. absurd (no_race_rests s' (subst (λ t. Goes t s') (o.first z) (e, went)));
    unraced = o.unraced;
    room = λ c. absurd (no_race_rests s' (subst (λ t. Goes t s') (o.room c) (e, went)));
  }

  pub start_race-IsOrderly :
      (f : Forwarder) (id : String) → is_choosing r.phase ≡ true → IsOrderly (start_race f r id)
  start_race-IsOrderly f id c = record {
    cleans =
        start-cleans Call FirstOutcome (hedge_budget f) (some (will_dial id))
          (hedge_call f.hedge id) true;
    older_cleans = o.cleans;
    settled = λ x. cc;
    older_settled = o.settled (ground arith);
    first = λ z. o.unraced z c;
    unraced = λ z x. cc;
    room = λ x. cc;
  }

  -- The handler leaves a race that is over, for a later phase.
  pub leave-IsOrderly :
      (ph : Phase) (w : List Write)
      → is_settled r.race.main ≡ true
      → is_choosing ph ≡ false
      → IsOrderly (record r { phase = ph; written = w })
  leave-IsOrderly ph w done c = record {
    cleans = o.cleans;
    older_cleans = o.older_cleans;
    settled = λ x. done;
    older_settled = o.older_settled;
    first = o.first;
    unraced = λ z x. cc;
    room = λ x. cc;
  }

  pub next_attempt-IsOrderly : is_settled r.race.main ≡ true → IsOrderly (next_attempt r)
  next_attempt-IsOrderly done = elim (Bool-cases (ltb (suc r.attempt) 2)) [
    | inl more ↦ rw more (record {
      cleans = o.cleans;
      older_cleans = o.older_cleans;
      settled = λ x. done;
      older_settled = o.older_settled;
      first = λ z. absurd (omega arith);
      unraced = λ z x. absurd (omega arith);
      room = λ x. o.first (ground arith);
    })
    | inr last ↦ rw last (record {
      cleans = o.cleans;
      older_cleans = o.older_cleans;
      settled = λ x. done;
      older_settled = o.older_settled;
      first = λ z. absurd (omega arith);
      unraced = λ z x. cc;
      room = λ x. cc;
    })
  ]

  pub prev-IsOrderly : (id : String) → IsOrderly (record r { prev_id = id })
  prev-IsOrderly id = record {
    cleans = o.cleans;
    older_cleans = o.older_cleans;
    settled = o.settled;
    older_settled = o.older_settled;
    first = o.first;
    unraced = o.unraced;
    room = o.room;
  }

  pub written-IsOrderly : (w : List Write) → IsOrderly (record r { written = w })
  written-IsOrderly w = record {
    cleans = o.cleans;
    older_cleans = o.older_cleans;
    settled = o.settled;
    older_settled = o.older_settled;
    first = o.first;
    unraced = o.unraced;
    room = o.room;
  }
