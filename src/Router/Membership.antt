-- ===== src/Router/Membership.antt =====
-- What `Update` makes of the pool (router.go): the workers of the snapshots, and the affinities that
-- still lead to a ready one.
use llms_chaos.Prelude.{
  ◌≡◌, ◌↔◌, inl, inr, refl, true, false, List, [], ◌∷◌, Option, none, some, arith, String, ◌=ₛ◌,
  eq_iff, if◌then◌else◌, Option-cases,
}
use llms_chaos.Prelude.Dict.{
  Dict, lookup, insert, retain, lookup-insert, lookup-retain_key, retained_passes, passing_retained,
  IsDict, insert-IsDict, retain-IsDict, AllEntries, AllEntries-insert, AllEntries-retain,
  AllEntries-lookup,
}
use llms_chaos.Router.{Worker, Snapshot, Pool, new_pool, refresh, take_in, seen, serves, update}

-- The last of the snapshots with an id.
abbrev pub last_snapshot : String → List Snapshot → Option Snapshot
last_snapshot id [] = none
last_snapshot id (s ∷ ss) = elim (last_snapshot id ss) [
  | some t ↦ some t
  | none ↦ if s.id =ₛ id then some s else none
]

last_snapshot-id :
    (id : String) (ss : List Snapshot) (s : Snapshot) → last_snapshot id ss ≡ some s → s.id ≡ id
last_snapshot-id id [] s h = cc
last_snapshot-id id (t ∷ ss) s h = ground (arith, eq_iff t.id id, last_snapshot-id id ss s)

seen-last_snapshot :
    (ss : List Snapshot) (id : String) → (last_snapshot id ss ≡ none) ↔ (seen ss id ≡ false)
unfolding seen
seen-last_snapshot [] id = ground arith
seen-last_snapshot (s ∷ ss) id = ground (arith, seen-last_snapshot ss id)

abbrev after_snapshot : Option Worker → Option Snapshot → Option Worker
after_snapshot w none = w
after_snapshot w (some s) = some (refresh w s)

refresh_twice :
    (o : Option Worker) (s t : Snapshot)
    → s.id ≡ t.id
    → refresh (some (refresh o s)) t ≡ refresh o t
refresh_twice none s t h = ground arith
refresh_twice (some w) s t h = refl

take_in-lookup :
    (id : String) (ws : Dict Worker) (ss : List Snapshot)
    → lookup id (take_in ws ss) ≡ after_snapshot (lookup id ws) (last_snapshot id ss)
unfolding take_in
take_in-lookup id ws [] = refl
take_in-lookup id ws (s ∷ ss) =
    let w = refresh (lookup s.id ws) s in
    let ws' = insert s.id w ws in
    let rest = take_in-lookup id ws' ss in
    elim (Option-cases (last_snapshot id ss)) [
      | inl absent ↦ ground (arith, rest, absent, eq_iff s.id id, lookup-insert s.id id w ws)
      | inr (t, present) ↦ ground (
        arith,
        rest,
        present,
        eq_iff s.id id,
        lookup-insert s.id id w ws,
        last_snapshot-id id ss t present,
        refresh_twice (lookup id ws) s t,
      )
    ]

pub update_refreshes :
    (p : Pool) (ss : List Snapshot) (id : String)
    → lookup id (update p ss).workers
      ≡ elim (last_snapshot id ss) [ none ↦ none | some s ↦ some (refresh (lookup id p.workers) s) ]
unfolding update
update_refreshes p ss id = ground (
  arith,
  lookup-retain_key (seen ss) id (take_in p.workers ss),
  take_in-lookup id p.workers ss,
  seen-last_snapshot ss id,
)

-- The worker has the fields of the snapshot; the rest is that of the worker before it, or of a new one.
abbrev pub Carries : String → Option Worker → Snapshot → Worker → Type 0
Carries id old s w =
    (w.host ≡ s.host)
    × (w.port ≡ s.port)
    × (w.state ≡ s.state)
    × (w.model ≡ s.model)
    × (w.id ≡ elim old [ none ↦ id | some v ↦ v.id ])
    × (w.inflight ≡ elim old [ none ↦ 0 | some v ↦ v.inflight ])
    × (w.ewma_ms ≡ elim old [ none ↦ 0 | some v ↦ v.ewma_ms ])

refresh-Carries :
    (id : String) (old : Option Worker) (s : Snapshot)
    → s.id ≡ id
    → Carries id old s (refresh old s)
refresh-Carries id none s same = (refl, refl, refl, refl, same, refl, refl)
refresh-Carries id (some w) s same = (refl, refl, refl, refl, refl, refl, refl)

-- What is in the pool under an id for which the snapshots are searched.
abbrev pub Follows : String → Option Worker → Option Snapshot → Option Worker → Type 0
Follows id old none new = new ≡ none
Follows id old (some s) new = (w : Worker) × (new ≡ some w) × Carries id old s w

follows :
    (id : String) (old : Option Worker) (o : Option Snapshot)
    → ((s : Snapshot) → o ≡ some s → s.id ≡ id)
    → Follows id old o (elim o [ none ↦ none | some s ↦ some (refresh old s) ])
follows id old none named = refl
follows id old (some s) named = (refresh old s, refl, refresh-Carries id old s (named s refl))

-- After `Update` a worker is in the pool exactly if a snapshot has its id. It then has the host, port,
-- state and model of the last such snapshot. The id, the load and the latency average are those of the
-- worker that was in the pool under the id, and of a new one, the id itself and 0, if none was.
pub update_workers :
    (p : Pool) (ss : List Snapshot) (id : String)
    → Follows id (lookup id p.workers) (last_snapshot id ss) (lookup id (update p ss).workers)
update_workers p ss id =
    rw (update_refreshes p ss id)
      (follows id (lookup id p.workers) (last_snapshot id ss) (last_snapshot-id id ss))

abbrev pub IsServed : Dict Worker → String → Type 0
IsServed ws id = (w : Worker) × (lookup id ws ≡ some w) × (w.state ≡ "ready")

serves_ready : (ws : Dict Worker) (id : String) → serves ws id ≡ true → IsServed ws id
serves_ready ws id h = elim (Option-cases (lookup id ws)) [
  | inl e ↦ ground (arith, e)
  | inr (w, e) ↦ (w, e, ground (arith, e, eq_iff w.state "ready"))
]

-- After `Update` every affinity leads to a worker that is in the pool and ready.
pub update_affinity :
    (p : Pool) (ss : List Snapshot) (key id : String)
    → lookup key (update p ss).affinity ≡ some id
    → IsServed (update p ss).workers id
unfolding update
update_affinity p ss key id h =
    let ws = retain (λ id _. seen ss id) (take_in p.workers ss) in
    serves_ready ws id (retained_passes (λ _ id. serves ws id) key id p.affinity h)

-- An affinity to a worker that `Update` leaves ready is kept.
pub update_keeps_affinity :
    (p : Pool) (ss : List Snapshot) (key id : String) (w : Worker)
    → lookup key p.affinity ≡ some id
    → lookup id (update p ss).workers ≡ some w
    → w.state ≡ "ready"
    → lookup key (update p ss).affinity ≡ some id
unfolding update
update_keeps_affinity p ss key id w bound found up =
    let ws = retain (λ id _. seen ss id) (take_in p.workers ss) in
    passing_retained (λ _ id. serves ws id) key id p.affinity bound
      (ground (arith, found, eq_iff w.state "ready"))

-- One entry for each id, under that id.
pub record IsValid (p : Pool) : Type 0 where
  pub keys : IsDict p.workers
  pub ids : AllEntries (λ k w. w.id ≡ k) p.workers

pub new_pool-IsValid : IsValid new_pool
unfolding new_pool
new_pool-IsValid = record { keys = tt; ids = tt }

take_in-IsDict : (ws : Dict Worker) (ss : List Snapshot) → IsDict ws → IsDict (take_in ws ss)
unfolding take_in
take_in-IsDict ws [] d = d
take_in-IsDict ws (s ∷ ss) d =
    take_in-IsDict (insert s.id (refresh (lookup s.id ws) s) ws) ss (insert-IsDict s.id _ ws d)

refresh-id :
    (k : String) (o : Option Worker) (s : Snapshot)
    → ((w : Worker) → o ≡ some w → w.id ≡ k)
    → s.id ≡ k
    → (refresh o s).id ≡ k
refresh-id k none s old new = new
refresh-id k (some w) s old new = old w refl

abbrev IsKeyed : Dict Worker → Type 0
IsKeyed = AllEntries (λ k w. w.id ≡ k)

take_in-IsKeyed : (ws : Dict Worker) (ss : List Snapshot) → IsKeyed ws → IsKeyed (take_in ws ss)
unfolding take_in
take_in-IsKeyed ws [] all = all
take_in-IsKeyed ws (s ∷ ss) all =
    let w = refresh (lookup s.id ws) s in
    let named =
      refresh-id s.id (lookup s.id ws) s
        (λ w found. AllEntries-lookup (λ k w. w.id ≡ k) s.id w ws all found) refl in
    take_in-IsKeyed (insert s.id w ws) ss (AllEntries-insert (λ k w. w.id ≡ k) s.id w ws named all)

-- `Update` keeps one entry for each worker, under the worker's own id.
pub update-IsValid : (p : Pool) (ss : List Snapshot) → IsValid p → IsValid (update p ss)
unfolding update
update-IsValid p ss v = record {
  keys = retain-IsDict _ _ (take_in-IsDict p.workers ss v.keys);
  ids = AllEntries-retain _ _ _ (take_in-IsKeyed p.workers ss v.ids);
}
