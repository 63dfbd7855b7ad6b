-- ===== src/Hedge/Race/Sound.antt =====
-- Which of a race's goroutines can still be at work where its caller stands (hedge.go).
use llms_chaos.Prelude.{
  ◌&&◌, ◌≡◌, inl, inr, refl, Bool, true, false, List, [], ◌∷◌, Option, none, some, arith,
  Option-cases, subst,
}
use llms_chaos.Prelude.Int.{ℤ}
use mathlib.Core.Option.{some-injective}
use llms_chaos.Hedge.Race.{
  Branch, absent, waiting, running, sent, Main, calling_primary, calling_secondary, first_wait,
  both_wait, returned, gave_up, Reaper, resting, awaits_primary, awaits_secondary, Race, Event,
  primary_moves, secondary_moves, primary_returns, secondary_returns, takes_primary,
  takes_secondary, timer_fires, reaps, context_ends, start, step, run,
}

-- A caller that has returned.
abbrev pub is_settled : {T : Type 0} → Main T → Bool
is_settled (returned r h) = true
is_settled (gave_up e h) = true
is_settled _ = false

module _ {P T : Type 0} where
  -- A call that was not started.
  abbrev pub is_quiet : Branch P T → Bool
  is_quiet absent = true
  is_quiet (waiting p) = true
  is_quiet _ = false

  -- A call with nothing left to receive.
  abbrev pub is_done : Branch P T → Bool
  is_done (running p) = false
  is_done (sent r) = false
  is_done _ = true

  -- What the two calls and the reaper can be while the caller stands at a point.
  abbrev pub is_sound : Main T → Reaper → Branch P T → Branch P T → Bool
  is_sound calling_primary resting b c = is_quiet c
  is_sound calling_secondary resting b c = is_quiet b
  is_sound first_wait resting b c = is_quiet c
  is_sound both_wait resting b c = true
  is_sound (returned r h) resting b c = is_done b && is_done c
  is_sound (returned r h) awaits_primary b c = is_done c
  is_sound (returned r h) awaits_secondary b c = is_done b
  is_sound (gave_up e h) resting b c = true
  is_sound _ _ b c = false

  abbrev pub IsSound : Race P T → Type 0
  IsSound s = is_sound s.main s.reaper s.primary s.secondary ≡ true

  pub step-IsSound : (s s' : Race P T) (e : Event P T) → IsSound s → step s e ≡ some s' → IsSound s'
  unfolding step
  step-IsSound s s' (primary_moves p) i h = ground arith
  step-IsSound s s' (secondary_moves p) i h = ground arith
  step-IsSound s s' (primary_returns r) i h = ground arith
  step-IsSound s s' (secondary_returns r) i h = ground arith
  step-IsSound s s' takes_primary i h = ground arith
  step-IsSound s s' takes_secondary i h = ground arith
  step-IsSound s s' timer_fires i h = ground arith
  step-IsSound s s' (context_ends e) i h = ground arith
  step-IsSound s s' reaps i h = ground arith

  pub step-cleans : (s s' : Race P T) (e : Event P T) → step s e ≡ some s' → s'.cleans ≡ s.cleans
  unfolding step
  step-cleans s s' (primary_moves p) h = ground arith
  step-cleans s s' (secondary_moves p) h = ground arith
  step-cleans s s' (primary_returns r) h = ground arith
  step-cleans s s' (secondary_returns r) h = ground arith
  step-cleans s s' takes_primary h = ground arith
  step-cleans s s' takes_secondary h = ground arith
  step-cleans s s' timer_fires h = ground arith
  step-cleans s s' (context_ends e) h = ground arith
  step-cleans s s' reaps h = ground arith

  pub step-is_settled :
      (s s' : Race P T) (e : Event P T)
      → is_settled s.main ≡ true
      → step s e ≡ some s'
      → s'.main ≡ s.main
  unfolding step
  step-is_settled s s' (primary_moves p) i h = ground arith
  step-is_settled s s' (secondary_moves p) i h = ground arith
  step-is_settled s s' (primary_returns r) i h = ground arith
  step-is_settled s s' (secondary_returns r) i h = ground arith
  step-is_settled s s' takes_primary i h = ground arith
  step-is_settled s s' takes_secondary i h = ground arith
  step-is_settled s s' timer_fires i h = ground arith
  step-is_settled s s' (context_ends e) i h = ground arith
  step-is_settled s s' reaps i h = ground arith

  -- What every step keeps, every run keeps.
  pub run_keeps {ℓ} :
      (Q : Race P T → Type ℓ)
      → ((s s' : Race P T) (e : Event P T) → Q s → step s e ≡ some s' → Q s')
      → (s s' : Race P T) (es : List (Event P T)) → Q s
      → run s es ≡ some s'
      → Q s'
  unfolding run
  run_keeps Q keep s s' [] q h = subst Q (some-injective s s' h) q
  run_keeps Q keep s s' (e ∷ es) q h = elim (Option-cases (step s e)) [
    | inl stuck ↦ absurd (ground (arith, stuck))
    | inr (t, went) ↦ run_keeps Q keep t s' es (keep s t e q went) (rw went at h)
  ]

module _ (P T : Type 0) where
  pub start-IsSound :
      (budget : ℤ) (p q : Option P) (cleans : Bool)
      → IsSound (start {P = P} {T = T} budget p q cleans)
  unfolding start
  start-IsSound budget none none c = refl
  start-IsSound budget none (some q) c = refl
  start-IsSound budget (some p) none c = refl
  start-IsSound budget (some p) (some q) c = ground arith

  pub start-cleans :
      (budget : ℤ) (p q : Option P) (c : Bool) → (start {P = P} {T = T} budget p q c).cleans ≡ c
  unfolding start
  start-cleans budget none none c = refl
  start-cleans budget none (some q) c = refl
  start-cleans budget (some p) none c = refl
  start-cleans budget (some p) (some q) c = ground arith
