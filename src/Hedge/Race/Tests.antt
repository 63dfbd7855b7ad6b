-- ===== src/Hedge/Race/Tests.antt =====
-- Runs of a race, and the theorems at concrete interleavings. A call in progress is a number here,
-- and so is the value that it returns.
use llms_chaos.Prelude.{ℕ, ◌≡◌, refl, true, false, List, [], ◌∷◌, some}
use llms_chaos.Prelude.Int.{pos}
use llms_chaos.Errors.{canceled, no_hedge, ok, err}
use llms_chaos.Hedge.Race.{
  waiting, running, sent, taken, both_wait, returned, gave_up, Reaper, resting, Race, Event,
  primary_returns, secondary_returns, takes_primary, takes_secondary, timer_fires, reaps,
  context_ends, start, step, run,
}
use llms_chaos.Hedge.Race.Accounts.{produced, settled}

-- The second call wins; the first one's value is cleaned up.
abbrev hedge_wins : List (Event ℕ ℕ)
hedge_wins =
    timer_fires ∷ secondary_returns (ok 7) ∷ takes_secondary ∷ primary_returns (ok 5) ∷ reaps ∷ []

abbrev won : Race ℕ ℕ
won = record {
  primary = taken;
  secondary = taken;
  main = returned (ok 7) true;
  reaper = resting;
  primary_canceled = true;
  secondary_canceled = false;
  cleans = true;
  cleaned = 5 ∷ [];
}

hedge_wins_runs : run (start (pos 800) (some 1) (some 2) true) hedge_wins ≡ some won
unfolding run step start
hedge_wins_runs = refl

settled_example : produced (λ v. v) hedge_wins ≡ 12
settled_example =
    settled (λ v. v) (pos 800) (some 1) (some 2) hedge_wins won (ok 7) true hedge_wins_runs refl
      refl

-- The context ends when the first call's value lies in its channel.
abbrev client_leaves : List (Event ℕ ℕ)
client_leaves = primary_returns (ok 5) ∷ context_ends canceled ∷ []

abbrev left : Race ℕ ℕ
left = record {
  primary = sent (ok 5);
  secondary = waiting 2;
  main = gave_up canceled false;
  reaper = resting;
  primary_canceled = true;
  secondary_canceled = false;
  cleans = true;
  cleaned = [];
}

client_leaves_runs : run (start (pos 800) (some 1) (some 2) true) client_leaves ≡ some left
unfolding run step start
client_leaves_runs = refl

abbrev primary_wins : List (Event ℕ ℕ)
primary_wins = primary_returns (ok 5) ∷ takes_primary ∷ []

abbrev unhedged : Race ℕ ℕ
unhedged = record left { primary = taken; main = returned (ok 5) false; primary_canceled = false }

primary_wins_runs : run (start (pos 800) (some 1) (some 2) true) primary_wins ≡ some unhedged
unfolding run step start
primary_wins_runs = refl

-- There is no worker to hedge with.
abbrev lone : Race ℕ ℕ
lone = record left {
  primary = running 1;
  secondary = sent (err no_hedge);
  main = both_wait;
  primary_canceled = false;
}

abbrev lost : Race ℕ ℕ
lost = record lone {
  secondary = taken;
  main = returned (err no_hedge) true;
  primary_canceled = true;
  reaper = Reaper.awaits_primary;
}
