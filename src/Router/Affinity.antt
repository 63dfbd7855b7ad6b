-- ===== src/Router/Affinity.antt =====
-- Sessions (router.go, `PickForKey`): a key stays with the worker that it was given.
use llms_chaos.Prelude.{ℕ, ◌≡◌, ◌≢◌, inl, inr, List, some, arith, String, eq_iff, Option-cases}
use llms_chaos.Prelude.Dict.{lookup, lookup-insert_self}
use llms_chaos.Router.{Worker, Snapshot, Pool, bound_to, bind_key, pick, pick_for_key, update}
use llms_chaos.Router.Membership.{IsValid, update_keeps_affinity}
use llms_chaos.Router.Choice.{pick_serves}

bound :
    (p : Pool) (key id : String) (w : Worker)
    → lookup key p.affinity ≡ some id
    → lookup id p.workers ≡ some w
    → w.state ≡ "ready"
    → bound_to p key ≡ some w
unfolding bound_to
bound p key id w kept found up = ground (arith, kept, found, eq_iff w.state "ready")

bind_key-bound :
    (p : Pool) (key : String) (w : Worker)
    → lookup w.id p.workers ≡ some w
    → w.state ≡ "ready"
    → bound_to (bind_key p key w).0 key ≡ some (bind_key p key w).1
unfolding bind_key
bind_key-bound p key w found up = elim (Option-cases (bound_to p key)) [
  | inr (v, e) ↦ rw (e, bind_key) e
  | inl e ↦ rw (e, bind_key) (bound _ key w.id w (lookup-insert_self key w.id p.affinity) found up)
]

bind_key_of_bound :
    (p : Pool) (key : String) (w b : Worker) → bound_to p key ≡ some w → bind_key p key b ≡ (p, w)
unfolding bind_key
bind_key_of_bound p key w b e = rw (e, bind_key)

-- Two requests that pick for the same new key at the same time end with the same worker: whoever
-- binds the key second is given the worker that the first one bound, and changes nothing.
pub bind_key_race :
    (p : Pool) (key : String) (a b : Worker)
    → lookup a.id p.workers ≡ some a
    → a.state ≡ "ready"
    → bind_key (bind_key p key a).0 key b ≡ bind_key p key a
bind_key_race p key a b found up =
    bind_key_of_bound (bind_key p key a).0 key (bind_key p key a).1 b
      (bind_key-bound p key a found up)

pick_for_key-bound :
    (p p' : Pool) (key : String) (i j : ℕ) (w : Worker)
    → IsValid p
    → key ≢ ""
    → pick_for_key p key i j ≡ (p', some w)
    → bound_to p' key ≡ some w
unfolding pick_for_key
pick_for_key-bound p p' key i j w v ne h = elim (Option-cases (bound_to p key)) [
  | inr (x, e) ↦ ground (arith, e, eq_iff key "")
  | inl e ↦ elim (Option-cases (pick p i j)) [
    | inl nothing ↦ absurd (ground (arith, e, nothing, eq_iff key ""))
    | inr (x, found) ↦
        let (there, up) = pick_serves p i j x v found in
        ground (arith, e, found, eq_iff key "", bind_key-bound p key x there up)
  ]
]

-- In a valid pool, a request with a session key that is given a worker binds the key to it: until the
-- pool changes, every further request with that key is given the same worker, and changes nothing.
pub pick_for_key_sticks :
    (p p' : Pool) (key : String) (i j i' j' : ℕ) (w : Worker)
    → IsValid p
    → key ≢ ""
    → pick_for_key p key i j ≡ (p', some w)
    → pick_for_key p' key i' j' ≡ (p', some w)
unfolding pick_for_key
pick_for_key_sticks p p' key i j i' j' w v ne h =
    ground (arith, eq_iff key "", pick_for_key-bound p p' key i j w v ne h)

-- A session outlives an update of the pool that leaves its worker ready.
pub pick_for_key-update :
    (p : Pool) (ss : List Snapshot) (key id : String) (i j : ℕ) (w : Worker)
    → key ≢ ""
    → lookup key p.affinity ≡ some id
    → lookup id (update p ss).workers ≡ some w
    → w.state ≡ "ready"
    → pick_for_key (update p ss) key i j ≡ (update p ss, some w)
unfolding pick_for_key
pick_for_key-update p ss key id i j w ne kept found up = ground (
  arith,
  eq_iff key "",
  bound (update p ss) key id w (update_keeps_affinity p ss key id w kept found up) found up,
)
