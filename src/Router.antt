-- ===== src/Router.antt =====
-- gateway/internal/router/router.go. A `*Worker` that the pool hands out is the entry under its id.
-- Each stretch of code under the pool's lock is one step, and so is a method of a worker. A draw of
-- `rand.Intn(n)` is any number i, read as i % n. The sums and products of `score` and `Observe`, which
-- the code makes in float64, are made in whole numbers here; `uint64(0.8*a + 0.2*b)` is
-- `(8 * a + 2 * b) / 10`. The counter `inflight` has no operation that writes it.
pub mod Membership
pub mod Choice
pub mod Affinity
pub mod Load
pub mod Validity
pub mod Models
mod Tests
use llms_chaos.Prelude.{
  ℕ, ◌+◌, ◌*◌, ◌/◌, ◌%◌, Bool, false, not, ◌&&◌, ◌||◌, String, ◌=ₛ◌, List, [], ◌∷◌, Option, none,
  some, leb, if◌then◌else◌, length, get_or,
}
use llms_chaos.Prelude.Int.{ℤ}
use llms_chaos.Prelude.Dict.{Dict, lookup, insert, retain}

pub record Worker : Type 0 where
  pub id : String
  pub host : String
  pub port : ℤ
  pub state : String
  pub model : String
  pub inflight : ℕ
  pub ewma_ms : ℕ

unfoldable pub score : Worker → ℕ
score w = w.inflight * 1000 + w.ewma_ms

-- The loop repeats until its `CompareAndSwap` finds the value that it read, so one call is one
-- update of the value that is there.
unfoldable pub observe : Worker → ℕ → Worker
observe w rtt_ms = record w { ewma_ms = (8 * w.ewma_ms + 2 * rtt_ms) / 10 }

pub record Snapshot : Type 0 where
  pub id : String
  pub host : String
  pub port : ℤ
  pub state : String
  pub model : String

pub record Pool : Type 0 where
  pub workers : Dict Worker
  pub affinity : Dict String

unfoldable pub new_pool : Pool
new_pool = record { workers = []; affinity = [] }

abbrev pub is_ready : Worker → Bool
is_ready w = w.state =ₛ "ready"

-- What one snapshot makes of the worker under its id, or of none.
abbrev pub refresh : Option Worker → Snapshot → Worker
refresh (some w) s = record w { host = s.host; port = s.port; state = s.state; model = s.model }
refresh none s = record {
  id = s.id;
  host = s.host;
  port = s.port;
  state = s.state;
  model = s.model;
  inflight = 0;
  ewma_ms = 0;
}

-- The first loop of `Update`.
unfoldable pub take_in : Dict Worker → List Snapshot → Dict Worker
take_in ws [] = ws
take_in ws (s ∷ ss) = take_in (insert s.id (refresh (lookup s.id ws) s) ws) ss

-- `seen[id]`
unfoldable pub seen : List Snapshot → String → Bool
seen [] id = false
seen (s ∷ ss) id = (s.id =ₛ id) || seen ss id

-- The test of the last loop: the worker of an affinity is there and ready.
abbrev pub serves : Dict Worker → String → Bool
serves ws id = elim (lookup id ws) [ none ↦ false | some w ↦ is_ready w ]

unfoldable pub update : Pool → List Snapshot → Pool
update p snapshots =
    let workers = retain (λ id _. seen snapshots id) (take_in p.workers snapshots) in
    record { workers = workers; affinity = retain (λ _ id. serves workers id) p.affinity }

unfoldable pub ready_of : Dict Worker → List Worker
ready_of [] = []
ready_of ((_, w) ∷ ws) = if is_ready w then w ∷ ready_of ws else ready_of ws

unfoldable pub ready : Pool → List Worker
ready p = ready_of p.workers

-- `candidates[rand.Intn(len(candidates))]`, for the list `w ∷ ws`.
abbrev pub draw : Worker → List Worker → ℕ → Worker
draw w ws i = get_or (w ∷ ws) (i % length (w ∷ ws)) w

-- The common end of `Pick` and `PickExcept`.
unfoldable pub choose : List Worker → ℕ → ℕ → Option Worker
choose [] i j = none
choose (w ∷ []) i j = some w
choose (w ∷ v ∷ ws) i j =
    let a = draw w (v ∷ ws) i in
    let b = draw w (v ∷ ws) j in if leb (score a) (score b) then some a else some b

unfoldable pub pick : Pool → ℕ → ℕ → Option Worker
pick p i j = choose (ready p) i j

unfoldable pub others : String → List Worker → List Worker
others exclude_id [] = []
others exclude_id (w ∷ ws) =
    if not (w.id =ₛ exclude_id) then w ∷ others exclude_id ws else others exclude_id ws

unfoldable pub pick_except : Pool → String → ℕ → ℕ → Option Worker
pick_except p exclude_id i j = choose (others exclude_id (ready p)) i j

-- The stretch of `PickForKey` under the read lock: the worker that the key is bound to, if it is
-- there and ready.
unfoldable pub bound_to : Pool → String → Option Worker
bound_to p key = elim (lookup key p.affinity) [
  | none ↦ none
  | some id ↦ elim (lookup id p.workers) [
    | none ↦ none
    | some w ↦ if is_ready w then some w else none
  ]
]

-- The stretch under the write lock, behind the pick.
unfoldable pub bind_key : Pool → String → Worker → Pool × Worker
bind_key p key chosen = elim (bound_to p key) [
  | some w ↦ (p, w)
  | none ↦ (record p { affinity = insert key chosen.id p.affinity }, chosen)
]

-- `PickForKey` with no other goroutine between its locked stretches.
unfoldable pub pick_for_key : Pool → String → ℕ → ℕ → Pool × Option Worker
pick_for_key p key i j = if key =ₛ "" then (p, pick p i j) else elim (bound_to p key) [
  | some w ↦ (p, some w)
  | none ↦ elim (pick p i j) [
    | none ↦ (p, none)
    | some chosen ↦ let (p', w) = bind_key p key chosen in (p', some w)
  ]
]

-- `winner.worker.Observe(...)` on the worker under an id, if it is still in the pool.
unfoldable pub observe_in : Pool → String → ℕ → Pool
unfolding observe
observe_in p id rtt_ms = elim (lookup id p.workers) [
  | none ↦ p
  | some w ↦ record p { workers = insert id (observe w rtt_ms) p.workers }
]

abbrev pub elem : String → List String → Bool
elem x [] = false
elem x (y ∷ ys) = (y =ₛ x) || elem x ys

-- `Models`; `found` is the set `seen`.
unfoldable pub models_from : List String → Dict Worker → List String
models_from found [] = []
models_from found ((_, w) ∷ ws) =
    let fresh = w.model ∷ models_from (w.model ∷ found) ws in
    let old = models_from found ws in
    if not (w.model =ₛ "") && not (elem w.model found) then fresh else old

unfoldable pub models : Pool → List String
unfolding models_from
models p = models_from [] p.workers
