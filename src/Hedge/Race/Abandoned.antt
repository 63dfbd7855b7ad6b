-- ===== src/Hedge/Race/Abandoned.antt =====
-- What `<-ctx.Done()` leaves behind in a race (hedge.go, the last case of each `select`): no goroutine
-- receives from the two channels any more.
use llms_chaos.Prelude.{ℕ, ◌+◌, ◌≡◌, refl, Bool, true, false, List, [], Option, none, some, arith}
use llms_chaos.Prelude.Int.{ℤ}
use llms_chaos.Errors.{Error}
use llms_chaos.Hedge.Race.Sound.{IsSound, step-IsSound, start-cleans, run_keeps}
use llms_chaos.Hedge.Race.Accounts.{
  of_branch, total, none_held, produced, run-produced, start-total,
}
use llms_chaos.Hedge.Race.{
  Main, returned, gave_up, Race, Event, primary_moves, secondary_moves, primary_returns,
  secondary_returns, takes_primary, takes_secondary, timer_fires, reaps, context_ends, start, step,
  run,
}

abbrev is_returned : {T : Type 0} → Main T → Bool
is_returned (returned r h) = true
is_returned _ = false

module _ {P T : Type 0} where
  -- Only a race that returned by a result cleans up.
  record IsTidy (s : Race P T) : Type 0 where
    sound : IsSound s
    untouched : is_returned s.main ≡ false → s.cleaned ≡ []

  step-untouched :
      (s s' : Race P T) (e : Event P T)
      → IsTidy s
      → step s e ≡ some s'
      → is_returned s'.main ≡ false
      → s'.cleaned ≡ []
  unfolding step
  step-untouched s s' (primary_moves p) i h m = ground arith
  step-untouched s s' (secondary_moves p) i h m = ground arith
  step-untouched s s' (primary_returns r) i h m = ground arith
  step-untouched s s' (secondary_returns r) i h m = ground arith
  step-untouched s s' takes_primary i h m = ground arith
  step-untouched s s' takes_secondary i h m = ground arith
  step-untouched s s' timer_fires i h m = ground arith
  step-untouched s s' (context_ends e) i h m = ground arith
  step-untouched s s' reaps i h m = ground arith

  step-IsTidy : (s s' : Race P T) (e : Event P T) → IsTidy s → step s e ≡ some s' → IsTidy s'
  step-IsTidy s s' e i h = record {
    sound = step-IsSound s s' e i.sound h;
    untouched = step-untouched s s' e i h;
  }

module _ (P T : Type 0) where
  start-IsTidy :
      (budget : ℤ) (p q : Option P) (c : Bool) → IsTidy (start {P = P} {T = T} budget p q c)
  unfolding start
  start-IsTidy budget none none c = record { sound = refl; untouched = λ _. refl }
  start-IsTidy budget none (some q) c = record { sound = refl; untouched = λ _. refl }
  start-IsTidy budget (some p) none c = record { sound = refl; untouched = λ _. refl }
  start-IsTidy budget (some p) (some q) c = ground arith

unread :
    {P T : Type 0} (weight : T → ℕ) (s : Race P T) (e : Error) (h : Bool)
    → IsTidy s
    → s.main ≡ gave_up e h
    → (s.cleaned ≡ [])
      × (total none_held weight s
          ≡ of_branch none_held weight s.primary + of_branch none_held weight s.secondary)
unread weight s e h tidy em = (tidy.untouched (rw em), ground (arith, tidy.untouched (rw em)))

-- A race whose caller returned because its context ended, even one with a cleanup function, cleans
-- nothing up: the values that its calls produce, before the end of the context or after it, stay in
-- the buffers of their channels.
pub gave_up_leaves :
    {P T : Type 0} (weight : T → ℕ) (budget : ℤ) (p q : Option P) (es : List (Event P T))
    (s : Race P T) (e : Error) (h : Bool)
    → run (start budget p q true) es ≡ some s
    → s.main ≡ gave_up e h
    → (s.cleaned ≡ [])
      × (produced weight es
          ≡ of_branch none_held weight s.primary + of_branch none_held weight s.secondary)
gave_up_leaves {P} {T} weight budget p q es s e h went em =
    let tidy = run_keeps IsTidy step-IsTidy _ s es (start-IsTidy P T budget p q true) went in
    let sum = run-produced weight _ s es (start-cleans P T budget p q true) went in
    let zero_sum = start-total {P = P} weight budget p q true in
    let (none_cleaned, left) = unread weight s e h tidy em in (none_cleaned, omega arith)
