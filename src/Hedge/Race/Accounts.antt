-- ===== src/Hedge/Race/Accounts.antt =====
-- Where the values go that the two calls of a race produce (hedge.go, `RaceWithCleanup`). A weight
-- on values stands for a multiset of them: sums agree for every weight exactly when the multisets do.
use llms_chaos.Prelude.{
  ℕ, ◌+◌, ◌≡◌, ◌∙◌, ap, inl, inr, refl, Bool, true, false, List, [], ◌∷◌, Option, none, some, arith,
  Option-cases,
}
use llms_chaos.Prelude.Int.{ℤ}
use llms_chaos.Errors.{Result, ok, err}
use llms_chaos.Hedge.Race.Sound.{
  IsSound, step-IsSound, start-IsSound, step-cleans, start-cleans, run_keeps,
}
use llms_chaos.Hedge.Race.{
  Branch, waiting, running, sent, Main, first_wait, both_wait, returned, Reaper, resting,
  awaits_primary, awaits_secondary, Race, Event, primary_moves, secondary_moves, primary_returns,
  secondary_returns, takes_primary, takes_secondary, timer_fires, reaps, context_ends, start, step,
  run, take_primary, take_secondary, reap,
}

module _ {T : Type 0} (weight : T → ℕ) where
  abbrev pub of_result : Result T → ℕ
  of_result (ok v) = weight v
  of_result (err e) = 0

  abbrev pub of_list : List T → ℕ
  of_list [] = 0
  of_list (v ∷ vs) = weight v + of_list vs

module _ {P T : Type 0} (held : P → ℕ) (weight : T → ℕ) where
  -- What a call has in hand, before and while it runs, or has left in its channel.
  abbrev pub of_branch : Branch P T → ℕ
  of_branch (waiting p) = held p
  of_branch (running p) = held p
  of_branch (sent r) = of_result weight r
  of_branch _ = 0

  abbrev pub of_main : Main T → ℕ
  of_main (returned r h) = of_result weight r
  of_main _ = 0

  -- All that the race holds, and all that it has given away.
  abbrev pub total : Race P T → ℕ
  total s = of_branch s.primary + of_branch s.secondary + of_main s.main + of_list weight s.cleaned

  -- What an event adds: what a call takes up or puts down, and the value it returns.
  abbrev pub gain : Race P T → Event P T → ℕ
  gain s (primary_moves p) = held p
  gain s (secondary_moves p) = held p
  gain s (primary_returns r) = of_result weight r
  gain s (secondary_returns r) = of_result weight r
  gain s _ = 0

  abbrev pub loss : Race P T → Event P T → ℕ
  loss s (primary_moves p) = of_branch s.primary
  loss s (secondary_moves p) = of_branch s.secondary
  loss s (primary_returns r) = of_branch s.primary
  loss s (secondary_returns r) = of_branch s.secondary
  loss s _ = 0

  take_primary-total :
      (m : Main T) (b : Branch P T) (s s' : Race P T)
      → s.main ≡ m
      → s.primary ≡ b
      → take_primary m b s ≡ some s'
      → total s' ≡ total s
  take_primary-total first_wait (sent r) s s' em eb h = ground arith
  take_primary-total both_wait (sent r) s s' em eb h = ground arith
  take_primary-total _ _ s s' em eb h = cc

  take_secondary-total :
      (m : Main T) (b : Branch P T) (s s' : Race P T)
      → s.main ≡ m
      → s.secondary ≡ b
      → take_secondary m b s ≡ some s'
      → total s' ≡ total s
  take_secondary-total both_wait (sent r) s s' em eb h = ground arith
  take_secondary-total _ _ s s' em eb h = cc

  reap-total :
      (m : Reaper) (b c : Branch P T) (s s' : Race P T)
      → s.cleans ≡ true
      → s.primary ≡ b
      → s.secondary ≡ c
      → reap m b c s ≡ some s'
      → total s' ≡ total s
  reap-total awaits_primary (sent r) c s s' e eb ec h = ground arith
  reap-total awaits_secondary b (sent r) s s' e eb ec h = ground arith
  reap-total _ _ _ s s' e eb ec h = cc

  -- A race whose cleanup is set never drops a value: each step keeps the total.
  pub step-total :
      (s s' : Race P T) (e : Event P T)
      → s.cleans ≡ true
      → step s e ≡ some s'
      → total s' + loss s e ≡ total s + gain s e
  unfolding step
  step-total s s' (primary_moves p) c h = ground arith
  step-total s s' (secondary_moves p) c h = ground arith
  step-total s s' (primary_returns r) c h = ground arith
  step-total s s' (secondary_returns r) c h = ground arith
  step-total s s' takes_primary c h =
      omega (arith, take_primary-total s.main s.primary s s' refl refl h)
  step-total s s' takes_secondary c h =
      omega (arith, take_secondary-total s.main s.secondary s s' refl refl h)
  step-total s s' timer_fires c h = ground arith
  step-total s s' (context_ends e) c h = ground arith
  step-total s s' reaps c h =
      omega (arith, reap-total s.reaper s.primary s.secondary s s' c refl refl h)

-- Calls that hold nothing themselves.
abbrev pub none_held : {P : Type 0} → P → ℕ
none_held _ = 0

-- The values that the calls return, over a history of events.
module _ {P T : Type 0} (weight : T → ℕ) where
  abbrev pub produced : List (Event P T) → ℕ
  produced [] = 0
  produced (primary_returns r ∷ es) = of_result weight r + produced es
  produced (secondary_returns r ∷ es) = of_result weight r + produced es
  produced (_ ∷ es) = produced es

  step-produced :
      (s s' : Race P T) (e : Event P T)
      → s.cleans ≡ true
      → step s e ≡ some s'
      → total none_held weight s' ≡ total none_held weight s + produced (e ∷ [])
  unfolding step
  step-produced s s' (primary_returns r) c h =
      ground (arith, step-total none_held weight s s' (primary_returns r) c h)
  step-produced s s' (secondary_returns r) c h =
      ground (arith, step-total none_held weight s s' (secondary_returns r) c h)
  step-produced s s' (primary_moves p) c h =
      ground (arith, step-total none_held weight s s' (primary_moves p) c h)
  step-produced s s' (secondary_moves p) c h =
      ground (arith, step-total none_held weight s s' (secondary_moves p) c h)
  step-produced s s' takes_primary c h =
      omega (arith, step-total none_held weight s s' takes_primary c h)
  step-produced s s' takes_secondary c h =
      omega (arith, step-total none_held weight s s' takes_secondary c h)
  step-produced s s' timer_fires c h =
      omega (arith, step-total none_held weight s s' timer_fires c h)
  step-produced s s' (context_ends e) c h =
      omega (arith, step-total none_held weight s s' (context_ends e) c h)
  step-produced s s' reaps c h = omega (arith, step-total none_held weight s s' reaps c h)

  produced-cons :
      (e : Event P T) (es : List (Event P T)) → produced (e ∷ es) ≡ produced (e ∷ []) + produced es
  produced-cons e es = ground arith

  pub run-produced :
      (s s' : Race P T) (es : List (Event P T))
      → s.cleans ≡ true
      → run s es ≡ some s'
      → total none_held weight s' ≡ total none_held weight s + produced es
  unfolding run
  run-produced s s' [] c h = ground arith
  run-produced s s' (e ∷ es) c h = elim (Option-cases (step s e)) [
    | inl stuck ↦ absurd (ground (arith, stuck))
    | inr (t, went) ↦
        let first = step-produced s t e c went in
        let later = run-produced t s' es (step-cleans s t e went ∙ c) (rw went at h) in
        ground (arith, first, later, produced-cons e es)
  ]

  pub start-total :
      (budget : ℤ) (p q : Option P) (c : Bool)
      → total none_held weight (start {P = P} {T = T} budget p q c) ≡ 0
  unfolding start
  start-total budget none none c = refl
  start-total budget none (some q) c = refl
  start-total budget (some p) none c = refl
  start-total budget (some p) (some q) c = ground arith

  rest-total :
      (s : Race P T) (r : Result T) (h : Bool)
      → IsSound s
      → s.main ≡ returned r h
      → s.reaper ≡ resting
      → total none_held weight s ≡ of_result weight r + of_list weight s.cleaned
  rest-total s r h i em er = ground arith

  -- Once a race with a cleanup function has returned by a result, and its reaper has nothing more to
  -- wait for, the values that the two calls produced are the one that it returned, if that is no
  -- error, and those that it cleaned up, each as often: none is lost, and none is both.
  pub settled :
      (budget : ℤ) (p q : Option P) (es : List (Event P T)) (s : Race P T) (r : Result T) (h : Bool)
      → run (start budget p q true) es ≡ some s
      → s.main ≡ returned r h
      → s.reaper ≡ resting
      → produced es ≡ of_result weight r + of_list weight s.cleaned
  settled budget p q es s r h went em er =
      let sound = run_keeps IsSound step-IsSound _ s es (start-IsSound P T budget p q true) went in
      omega (
        arith,
        run-produced _ s es (start-cleans P T budget p q true) went,
        start-total budget p q true,
        rest-total s r h sound em er,
      )

module _ {P T : Type 0} where
  abbrev pub is_reap : Event P T → Bool
  is_reap reaps = true
  is_reap _ = false

-- What the calls of a race and its caller have in hand, without what was cleaned up.
module _ {P T : Type 0} (held : P → ℕ) (weight : T → ℕ) where
  abbrev pub in_hand : Race P T → ℕ
  in_hand s =
      of_branch held weight s.primary
      + of_branch held weight s.secondary
      + of_main held weight s.main

  step-cleaned :
      (s s' : Race P T) (e : Event P T)
      → is_reap e ≡ false
      → step s e ≡ some s'
      → s'.cleaned ≡ s.cleaned
  unfolding step
  step-cleaned s s' (primary_moves p) c h = ground arith
  step-cleaned s s' (secondary_moves p) c h = ground arith
  step-cleaned s s' (primary_returns r) c h = ground arith
  step-cleaned s s' (secondary_returns r) c h = ground arith
  step-cleaned s s' takes_primary c h = ground arith
  step-cleaned s s' takes_secondary c h = ground arith
  step-cleaned s s' timer_fires c h = ground arith
  step-cleaned s s' (context_ends e) c h = ground arith
  step-cleaned s s' reaps c h = cc

  pub step-in_hand :
      (s s' : Race P T) (e : Event P T)
      → s.cleans ≡ true
      → is_reap e ≡ false
      → step s e ≡ some s'
      → in_hand s' + loss held weight s e ≡ in_hand s + gain held weight s e
  step-in_hand s s' e c r h =
      omega
        (arith, step-total held weight s s' e c h, ap (of_list weight) (step-cleaned s s' e r h))
