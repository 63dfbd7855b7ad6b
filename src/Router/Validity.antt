-- ===== src/Router/Validity.antt =====
-- Every call of the pool keeps one entry for each worker, under the worker's own id (router.go).
use llms_chaos.Prelude.{ℕ, ◌≡◌, String, List, [], ◌∷◌, Option-cases, inl, inr}
use llms_chaos.Prelude.Dict.{lookup, insert-IsDict, AllEntries-insert, AllEntries-lookup}
use llms_chaos.Router.{Pool, new_pool, observe, observe_in}
use llms_chaos.Router.Load.{Call, updates, picks_for, observes, step, run, pick_for_key-workers}
use llms_chaos.Router.Membership.{IsValid, new_pool-IsValid, update-IsValid}

observe_in-IsValid :
    (p : Pool) (id : String) (rtt_ms : ℕ) → IsValid p → IsValid (observe_in p id rtt_ms)
unfolding observe_in observe
observe_in-IsValid p id rtt_ms v = elim (Option-cases (lookup id p.workers)) [
  | inl e ↦ rw (e, observe_in) v
  | inr (w, e) ↦
      let named = AllEntries-lookup (λ k w. w.id ≡ k) id w p.workers v.ids e in
      rw (e, observe_in)
        (record {
          keys = insert-IsDict id (observe w rtt_ms) p.workers v.keys;
          ids = AllEntries-insert (λ k w. w.id ≡ k) id (observe w rtt_ms) p.workers named v.ids;
        })
]

step-IsValid : (p : Pool) (c : Call) → IsValid p → IsValid (step p c)
unfolding step
step-IsValid p (updates ss) v = update-IsValid p ss v
step-IsValid p (picks_for key i j) v = record {
  keys = rw (pick_for_key-workers p key i j) v.keys;
  ids = rw (pick_for_key-workers p key i j) v.ids;
}
step-IsValid p (observes id rtt_ms) v = observe_in-IsValid p id rtt_ms v

run_keeps_IsValid : (p : Pool) (cs : List Call) → IsValid p → IsValid (run p cs)
unfolding run
run_keeps_IsValid p [] v = v
run_keeps_IsValid p (c ∷ cs) v = run_keeps_IsValid (step p c) cs (step-IsValid p c v)

-- In every pool that updates, picks for a key and observations bring about from a new one, each worker
-- has one entry, under its own id.
pub run-IsValid : (cs : List Call) → IsValid (run new_pool cs)
run-IsValid cs = run_keeps_IsValid new_pool cs new_pool-IsValid
