-- ===== src/Hedge/Race.antt =====
-- `RaceWithCleanup` and `Race` of gateway/internal/hedge/hedge.go. The two calls and the cleanup run
-- in goroutines of their own, so a race is a state machine: an event is one step of one goroutine, of
-- the timer or of the context, and a list of events is an interleaving. `P` is what a running call
-- has in hand, `T` the value that it returns.
pub mod Sound
pub mod Accounts
pub mod Winner
pub mod Abandoned
mod Tests
use llms_chaos.Prelude.{Bool, true, false, List, [], ◌∷◌, Option, none, some, if◌then◌else◌}
use llms_chaos.Prelude.Int.{ℤ, pos, leb_ℤ}
use llms_chaos.Errors.{Error, canceled, Result, ok, err}

-- A call that was passed as nil, one that is not started, one that runs, one whose result lies in the
-- buffer of its channel, and one whose result was received.
pub data Branch (P T : Type 0) : Type 0 where
  absent : Branch P T
  waiting : P → Branch P T
  running : P → Branch P T
  sent : Result T → Branch P T
  taken : Branch P T

-- Where the caller's goroutine stands. `gave_up` is a return by `<-ctx.Done()`; the `Bool` of a
-- return is the third result, `hedged`.
pub data Main (T : Type 0) : Type 0 where
  calling_primary calling_secondary first_wait both_wait : Main T
  returned : Result T → Bool → Main T
  gave_up : Error → Bool → Main T

-- The goroutine that waits for the loser, to clean up after it.
pub data Reaper : Type 0 where
  resting awaits_primary awaits_secondary : Reaper

pub record Race (P T : Type 0) : Type 0 where
  pub primary : Branch P T
  pub secondary : Branch P T
  pub main : Main T
  pub reaper : Reaper
  pub primary_canceled : Bool
  pub secondary_canceled : Bool
  pub cleans : Bool  -- a cleanup function was given
  pub cleaned : List T  -- the values that it was called on

pub data Event (P T : Type 0) : Type 0 where
  primary_moves secondary_moves : P → Event P T
  primary_returns secondary_returns : Result T → Event P T
  takes_primary takes_secondary timer_fires reaps : Event P T
  context_ends : Error → Event P T

abbrev pub clean {ℓ} : {T : Type ℓ} → Bool → Result T → List T → List T
clean true (ok v) vs = v ∷ vs
clean _ _ vs = vs

module _ {P T : Type 0} where
  abbrev pub branch_of : Option P → Branch P T
  branch_of none = absent
  branch_of (some p) = waiting p

  abbrev pub go : Branch P T → Branch P T
  go (waiting p) = running p
  go b = b

  -- Up to the first `select`, or the plain call where one function is nil.
  abbrev pub opening : Option P → Option P → Bool → Race P T → Race P T
  opening none none now s = record s { main = returned (err canceled) false }
  opening none (some _) now s = record s { main = calling_secondary; secondary = go s.secondary }
  opening (some _) none now s = record s { main = calling_primary; primary = go s.primary }
  opening (some _) (some _) now s =
      if now
      then record s { main = both_wait; primary = go s.primary; secondary = go s.secondary }
      else record s { main = first_wait; primary = go s.primary }

  unfoldable pub start : ℤ → Option P → Option P → Bool → Race P T
  start budget primary secondary cleans = opening primary secondary (leb_ℤ budget (pos 0)) (record {
    primary = branch_of primary;
    secondary = branch_of secondary;
    main = first_wait;
    reaper = resting;
    primary_canceled = false;
    secondary_canceled = false;
    cleans = cleans;
    cleaned = [];
  })

  -- `Race` is `RaceWithCleanup` with a nil cleanup.
  unfoldable pub start_race : ℤ → Option P → Option P → Race P T
  unfolding start
  start_race budget primary secondary = start budget primary secondary false

  abbrev pub primary_done : Main T → Branch P T → Result T → Race P T → Option (Race P T)
  primary_done calling_primary (running _) r s =
      some (record s { primary = taken; main = returned r false })
  primary_done _ (running _) r s = some (record s { primary = sent r })
  primary_done _ _ r s = none

  abbrev pub secondary_done : Main T → Branch P T → Result T → Race P T → Option (Race P T)
  secondary_done calling_secondary (running _) r s =
      some (record s { secondary = taken; main = returned r false })
  secondary_done _ (running _) r s = some (record s { secondary = sent r })
  secondary_done _ _ r s = none

  -- `case r := <-pch` of either `select`
  abbrev pub take_primary : Main T → Branch P T → Race P T → Option (Race P T)
  take_primary first_wait (sent r) s = some (record s { primary = taken; main = returned r false })
  take_primary both_wait (sent r) s = some (record s {
    primary = taken;
    main = returned r true;
    secondary_canceled = true;
    reaper = awaits_secondary;
  })
  take_primary _ _ s = none

  -- `case r := <-sch`
  abbrev pub take_secondary : Main T → Branch P T → Race P T → Option (Race P T)
  take_secondary both_wait (sent r) s = some (record s {
    secondary = taken;
    main = returned r true;
    primary_canceled = true;
    reaper = awaits_primary;
  })
  take_secondary _ _ s = none

  -- `case <-timer.C`, and the start of the secondary call behind it
  abbrev pub fire : Main T → Race P T → Option (Race P T)
  fire first_wait s = some (record s { main = both_wait; secondary = go s.secondary })
  fire _ s = none

  -- `case <-ctx.Done()`
  abbrev pub give_up : Main T → Error → Race P T → Option (Race P T)
  give_up first_wait e s = some (record s { main = gave_up e false; primary_canceled = true })
  give_up both_wait e s =
      some (record s { main = gave_up e true; primary_canceled = true; secondary_canceled = true })
  give_up _ e s = none

  -- The goroutine that the winner's case starts: it receives the loser's result.
  abbrev pub reap : Reaper → Branch P T → Branch P T → Race P T → Option (Race P T)
  reap awaits_primary (sent r) _ s =
      some (record s { primary = taken; reaper = resting; cleaned = clean s.cleans r s.cleaned })
  reap awaits_secondary _ (sent r) s =
      some (record s { secondary = taken; reaper = resting; cleaned = clean s.cleans r s.cleaned })
  reap _ _ _ s = none

  abbrev pub move : Branch P T → P → Option (Branch P T)
  move (running _) p = some (running p)
  move _ p = none

  abbrev pub with_primary : Race P T → Option (Branch P T) → Option (Race P T)
  with_primary s none = none
  with_primary s (some b) = some (record s { primary = b })

  abbrev pub with_secondary : Race P T → Option (Branch P T) → Option (Race P T)
  with_secondary s none = none
  with_secondary s (some b) = some (record s { secondary = b })

  -- `none`: the event cannot happen in this state.
  unfoldable pub step : Race P T → Event P T → Option (Race P T)
  step s (primary_moves p) = with_primary s (move s.primary p)
  step s (secondary_moves p) = with_secondary s (move s.secondary p)
  step s (primary_returns r) = primary_done s.main s.primary r s
  step s (secondary_returns r) = secondary_done s.main s.secondary r s
  step s takes_primary = take_primary s.main s.primary s
  step s takes_secondary = take_secondary s.main s.secondary s
  step s timer_fires = fire s.main s
  step s (context_ends e) = give_up s.main e s
  step s reaps = reap s.reaper s.primary s.secondary s

  abbrev pub then_run : Option (Race P T) → (Race P T → Option (Race P T)) → Option (Race P T)
  then_run none k = none
  then_run (some s) k = k s

  unfoldable pub run : Race P T → List (Event P T) → Option (Race P T)
  run s [] = some s
  run s (e ∷ es) = then_run (step s e) (λ s'. run s' es)
