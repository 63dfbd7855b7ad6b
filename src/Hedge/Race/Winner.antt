-- ===== src/Hedge/Race/Winner.antt =====
-- Which call decides a race (hedge.go, the cases of the two `select`s).
use llms_chaos.Prelude.{◌≡◌, refl, Bool, true, false, List, [], ◌∷◌, some, arith}
use llms_chaos.Prelude.Int.{ℤ}
use llms_chaos.Errors.{Error, Result, err}
use llms_chaos.Hedge.Race.Sound.{run_keeps}
use llms_chaos.Hedge.Race.{
  Branch, waiting, running, sent, Main, first_wait, both_wait, returned, gave_up, Reaper, resting,
  Race, Event, primary_moves, secondary_moves, primary_returns, secondary_returns, takes_primary,
  takes_secondary, timer_fires, reaps, context_ends, start, step, run,
}

module _ {P T : Type 0} where
  -- Before the hedge, the second call waits with what it was given.
  abbrev Unhedged : P → Main T → Reaper → Branch P T → Type 0
  Unhedged q first_wait rp c = (rp ≡ resting) × (c ≡ waiting q)
  Unhedged q both_wait rp c = Unit
  Unhedged q (returned r true) rp c = Unit
  Unhedged q (returned r false) rp c = (rp ≡ resting) × (c ≡ waiting q)
  Unhedged q (gave_up e true) rp c = Unit
  Unhedged q (gave_up e false) rp c = (rp ≡ resting) × (c ≡ waiting q)
  Unhedged q _ rp c = ⊥

  abbrev IsUnhedged : P → Race P T → Type 0
  IsUnhedged q s = Unhedged q s.main s.reaper s.secondary

  step-IsUnhedged :
      (q : P) (s s' : Race P T) (e : Event P T)
      → IsUnhedged q s
      → step s e ≡ some s'
      → IsUnhedged q s'
  unfolding step
  step-IsUnhedged q s s' (primary_moves p) i h = ground arith
  step-IsUnhedged q s s' (secondary_moves p) i h = ground arith
  step-IsUnhedged q s s' (primary_returns r) i h = ground arith
  step-IsUnhedged q s s' (secondary_returns r) i h = ground arith
  step-IsUnhedged q s s' takes_primary i h = ground arith
  step-IsUnhedged q s s' takes_secondary i h = ground arith
  step-IsUnhedged q s s' timer_fires i h = ground arith
  step-IsUnhedged q s s' (context_ends e) i h = ground arith
  step-IsUnhedged q s s' reaps i h = ground arith

  start-IsUnhedged :
      (budget : ℤ) (p q : P) (c : Bool) (s : Race P T)
      → start budget (some p) (some q) c ≡ s
      → IsUnhedged q s
  unfolding start
  start-IsUnhedged budget p q c s e = ground arith

  -- A race of two calls that reports no hedging has not started the second one.
  pub unhedged_waits :
      (budget : ℤ) (p q : P) (c : Bool) (es : List (Event P T)) (s : Race P T) (r : Result T)
      → run (start budget (some p) (some q) c) es ≡ some s
      → s.main ≡ returned r false
      → s.secondary ≡ waiting q
  unhedged_waits budget p q c es s r went em =
      let i =
        run_keeps (IsUnhedged q) (step-IsUnhedged q) _ s es (start-IsUnhedged budget p q c _ refl)
          went in
      ground arith

  -- The primary call goes on without a result, and the context does not end.
  abbrev pub is_slow : List (Event P T) → Bool
  is_slow [] = true
  is_slow (primary_returns r ∷ es) = false
  is_slow (context_ends e ∷ es) = false
  is_slow (_ ∷ es) = is_slow es

  abbrev Lost : Error → Main T → Branch P T → Bool → Reaper → Type 0
  Lost e both_wait c canceled rp = (c ≡ sent (err e)) × (rp ≡ resting)
  Lost e (returned r h) c canceled rp = (r ≡ err e) × (h ≡ true) × (canceled ≡ true)
  Lost e _ c canceled rp = ⊥

  abbrev is_running : Branch P T → Bool
  is_running (running p) = true
  is_running _ = false

  record IsLost (e : Error) (s : Race P T) : Type 0 where
    busy : is_running s.primary ≡ true
    lost : Lost e s.main s.secondary s.primary_canceled s.reaper
