-- ===== src/Router/Load.antt =====
-- What the scores of the workers are made of (router.go, `score` and `Observe`).
use llms_chaos.Prelude.{
  ℕ, ◌≤◌, ◌≡◌, inl, inr, refl, List, [], ◌∷◌, Option, none, some, arith, String, Option-cases,
}
use llms_chaos.Prelude.Dict.{
  Dict, lookup, insert, AllEntries, AllEntries-insert, AllEntries-retain, AllEntries-lookup,
}
use llms_chaos.Router.{
  Worker, Snapshot, Pool, new_pool, refresh, take_in, observe, observe_in, score, update, bind_key,
  pick_for_key,
}

unfoldable pub observe_all : Worker → List ℕ → Worker
observe_all w [] = w
observe_all w (r ∷ rs) = observe_all (observe w r) rs

abbrev pub Between : ℕ → ℕ → List ℕ → Type 0
Between lo hi [] = Unit
Between lo hi (r ∷ rs) = (lo ≤ r) × (r ≤ hi) × Between lo hi rs

observe_between :
    (w : Worker) (r lo hi : ℕ)
    → lo ≤ w.ewma_ms
    → w.ewma_ms ≤ hi
    → lo ≤ r
    → r ≤ hi
    → (lo ≤ (observe w r).ewma_ms) × ((observe w r).ewma_ms ≤ hi)
unfolding observe
observe_between w r lo hi a b c d = (omega arith, omega arith)

-- An average whose start and whose observations lie in a range stays in that range, and observing
-- changes nothing else of the worker.
pub average_stays_in_range :
    (w : Worker) (rs : List ℕ) (lo hi : ℕ)
    → lo ≤ w.ewma_ms
    → w.ewma_ms ≤ hi
    → Between lo hi rs
    → (lo ≤ (observe_all w rs).ewma_ms)
      × ((observe_all w rs).ewma_ms ≤ hi)
      × (observe_all w rs ≡ record w { ewma_ms = (observe_all w rs).ewma_ms })
unfolding observe_all observe
average_stays_in_range w [] lo hi a b all = (a, b, refl)
average_stays_in_range w (r ∷ rs) lo hi a b all =
    let (low, high) = observe_between w r lo hi a b all.0 all.1 in
    let rest = average_stays_in_range (observe w r) rs lo hi low high all.2 in
    (rest.0, rest.1, rest.2)

-- The calls that write to a pool or its workers.
pub data Call : Type 0 where
  updates : List Snapshot → Call
  picks_for : String → ℕ → ℕ → Call
  observes : String → ℕ → Call

unfoldable pub step : Pool → Call → Pool
step p (updates ss) = update p ss
step p (picks_for key i j) = (pick_for_key p key i j).0
step p (observes id rtt_ms) = observe_in p id rtt_ms

unfoldable pub run : Pool → List Call → Pool
run p [] = p
run p (c ∷ cs) = run (step p c) cs

abbrev IsIdle : String → Worker → Type 0
IsIdle k w = w.inflight ≡ 0

refresh-IsIdle :
    (k : String) (o : Option Worker) (s : Snapshot)
    → ((w : Worker) → o ≡ some w → IsIdle k w)
    → IsIdle k (refresh o s)
refresh-IsIdle k none s old = refl
refresh-IsIdle k (some w) s old = old w refl

take_in-IsIdle :
    (ws : Dict Worker) (ss : List Snapshot)
    → AllEntries IsIdle ws
    → AllEntries IsIdle (take_in ws ss)
unfolding take_in
take_in-IsIdle ws [] all = all
take_in-IsIdle ws (s ∷ ss) all =
    let w = refresh (lookup s.id ws) s in
    let idle =
      refresh-IsIdle s.id (lookup s.id ws) s
        (λ w found. AllEntries-lookup IsIdle s.id w ws all found) in
    take_in-IsIdle (insert s.id w ws) ss (AllEntries-insert IsIdle s.id w ws idle all)

observe_in-IsIdle :
    (p : Pool) (id : String) (rtt_ms : ℕ)
    → AllEntries IsIdle p.workers
    → AllEntries IsIdle (observe_in p id rtt_ms).workers
unfolding observe_in
observe_in-IsIdle p id rtt_ms all = elim (Option-cases (lookup id p.workers)) [
  | inl e ↦ rw (e, observe_in) all
  | inr (w, e) ↦
      rw (e, observe_in)
        (AllEntries-insert IsIdle id (observe w rtt_ms) p.workers
          (AllEntries-lookup IsIdle id w p.workers all e) all)
]

pub pick_for_key-workers :
    (p : Pool) (key : String) (i j : ℕ) → (pick_for_key p key i j).0.workers ≡ p.workers
unfolding pick_for_key bind_key
pick_for_key-workers p key i j = ground arith

step-IsIdle :
    (p : Pool) (c : Call) → AllEntries IsIdle p.workers → AllEntries IsIdle (step p c).workers
unfolding step update
step-IsIdle p (updates ss) all = AllEntries-retain IsIdle _ _ (take_in-IsIdle p.workers ss all)
step-IsIdle p (picks_for key i j) all = rw (pick_for_key-workers p key i j) all
step-IsIdle p (observes id rtt_ms) all = observe_in-IsIdle p id rtt_ms all

run-IsIdle :
    (p : Pool) (cs : List Call) → AllEntries IsIdle p.workers → AllEntries IsIdle (run p cs).workers
unfolding run
run-IsIdle p [] all = all
run-IsIdle p (c ∷ cs) all = run-IsIdle (step p c) cs (step-IsIdle p c all)

-- In every pool that the calls of the program bring about, the count of requests in flight is 0 for
-- every worker, so a worker's score is its latency average alone, whatever load it carries.
pub score_without_load :
    (cs : List Call) (id : String) (w : Worker)
    → lookup id (run new_pool cs).workers ≡ some w
    → (w.inflight ≡ 0) × (score w ≡ w.ewma_ms)
unfolding score
score_without_load cs id w found =
    let idle =
      AllEntries-lookup IsIdle id w (run new_pool cs).workers
        (run-IsIdle new_pool cs (unfold new_pool in tt)) found in
    (idle, rw idle (omega arith))
