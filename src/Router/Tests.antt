-- ===== src/Router/Tests.antt =====
-- Runs of the pool, and the theorems at a concrete pool.
use llms_chaos.Prelude.{ℕ, ◌≤◌, ◌≡◌, ◌≢◌, refl, String, eq_iff, List, [], ◌∷◌, some, arith}
use llms_chaos.Prelude.Int.{pos}
use llms_chaos.Prelude.Dict.{lookup, insert, retain}
use llms_chaos.Router.{
  Worker, Snapshot, Pool, new_pool, update, take_in, seen, ready_of, ready, choose, pick, others,
  pick_except, bound_to, bind_key, pick_for_key, score, observe_in,
}
use llms_chaos.Router.Membership.{IsValid, IsServed, Follows, update_workers, update_affinity}
use llms_chaos.Router.Choice.{IsDrawn, pick_least}
use llms_chaos.Router.Affinity.{bind_key_race, pick_for_key_sticks}
use llms_chaos.Router.Load.{Call, updates, observes, run, step, score_without_load}
use llms_chaos.Router.Validity.{run-IsValid}

abbrev up : String → Snapshot
up id = record { id = id; host = "h"; port = pos 9001; state = "ready"; model = "sim" }

abbrev worker : String → ℕ → Worker
worker id ms = record {
  id = id;
  host = "h";
  port = pos 9001;
  state = "ready";
  model = "sim";
  inflight = 0;
  ewma_ms = ms;
}

abbrev pair : Pool
pair = record {
  workers = ("a", worker "a" 40) ∷ ("b", worker "b" 10) ∷ [];
  affinity = ("s", "b") ∷ [];
}

pair-IsValid : IsValid pair
unfolding lookup
pair-IsValid = record { keys = (refl, (refl, tt)); ids = (refl, (refl, tt)) }

-- The snapshot of worker a stays, worker b is gone.
update_drops :
    update pair (up "a" ∷ []) ≡ record { workers = ("a", worker "a" 40) ∷ []; affinity = [] }
unfolding update take_in seen insert lookup retain
update_drops = refl

update_workers_example :
    Follows "b"
      (lookup "b" pair.workers)
      (some (up "b"))
      (lookup "b" (update pair (up "b" ∷ [])).workers)
update_workers_example = update_workers pair (up "b" ∷ []) "b"

kept : lookup "s" (update pair (up "b" ∷ [])).affinity ≡ some "b"
unfolding update take_in seen insert lookup retain
kept = refl

found_b : lookup "b" (update pair (up "b" ∷ [])).workers ≡ some (worker "b" 10)
unfolding update take_in seen insert lookup retain
found_b = refl

update_affinity_example : IsServed (update pair (up "b" ∷ [])).workers "b"
update_affinity_example = update_affinity pair (up "b" ∷ []) "s" "b" kept

picks_b : pick pair 0 1 ≡ some (worker "b" 10)
unfolding pick choose ready ready_of score
picks_b = refl

pick_least_example :
    IsDrawn (ready pair) 0 1 (worker "b" 10)
    × ((x : Worker) → IsDrawn (ready pair) 0 1 x → score (worker "b" 10) ≤ score x)
pick_least_example = pick_least pair 0 1 (worker "b" 10) picks_b

in_pair : lookup "b" pair.workers ≡ some (worker "b" 10)
unfolding lookup
in_pair = refl

b_not_a : ◌≢◌ {A = String} "b" "a"
b_not_a = ground (arith, eq_iff "b" "a")

s_not_empty : ◌≢◌ {A = String} "s" ""
s_not_empty = ground (arith, eq_iff "s" "")

excepts_a : pick_except pair "a" 3 4 ≡ some (worker "b" 10)
unfolding pick_except choose others ready ready_of score
excepts_a = refl

bind_key_race_example :
    bind_key (bind_key pair "t" (worker "b" 10)).0 "t" (worker "a" 40)
    ≡ bind_key pair "t" (worker "b" 10)
bind_key_race_example = bind_key_race pair "t" (worker "b" 10) (worker "a" 40) in_pair refl

session : pick_for_key pair "s" 0 0 ≡ (pair, some (worker "b" 10))
unfolding pick_for_key bound_to lookup
session = refl

pick_for_key_sticks_example : pick_for_key pair "s" 7 8 ≡ (pair, some (worker "b" 10))
pick_for_key_sticks_example =
    pick_for_key_sticks pair pair "s" 0 0 7 8 (worker "b" 10) pair-IsValid s_not_empty session

abbrev polls : List Call
polls = updates (up "a" ∷ []) ∷ observes "a" 50 ∷ []

polled : lookup "a" (run new_pool polls).workers ≡ some (worker "a" 10)
unfolding run step new_pool update take_in seen insert lookup retain observe_in
polled = refl

score_without_load_example : (◌≡◌ {A = ℕ} 0 0) × (score (worker "a" 10) ≡ 10)
score_without_load_example = score_without_load polls "a" (worker "a" 10) polled

run-IsValid_example : IsValid (run new_pool polls)
run-IsValid_example = run-IsValid polls
