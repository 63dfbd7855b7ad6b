-- ===== src/Router/Choice.antt =====
-- Which worker a pick hands out (router.go, `Pick` and `PickExcept`).
use llms_chaos.Prelude.{
  ℕ, zero, suc, ◌%◌, ◌≤◌, ◌≡◌, ◌≢◌, ◌⊎◌, inl, inr, refl, sym, subst, List, [], ◌∷◌, none, some,
  arith, String, ◌=ₛ◌, eq_iff, Bool-cases, Option-cases, All, All-get_or, get_elem?,
  get_elem?-get_or, get_elem?_total, get_or, ◌∙◌, ap, ◌<◌, length, leb,
}
use mathlib.Core.Option.{some-injective}
use llms_chaos.Prelude.Dict.{Dict, lookup, AllEntries, entries_found}
use llms_chaos.Router.{
  Worker, Pool, is_ready, ready, ready_of, choose, draw, score, others, pick, pick_except,
}
use llms_chaos.Router.Membership.{IsValid}

choose-All :
    (P : Worker → Type 0) (ws : List Worker) (i j : ℕ) (w : Worker)
    → All P ws
    → choose ws i j ≡ some w
    → P w
unfolding choose
choose-All P [] i j w all h = cc
choose-All P (x ∷ []) i j w all h = subst P (some-injective x w h) all.0
choose-All P (x ∷ y ∷ ws) i j w all h =
    let a = All-get_or P (x ∷ y ∷ ws) (i % length (x ∷ y ∷ ws)) x all all.0 in
    let b = All-get_or P (x ∷ y ∷ ws) (j % length (x ∷ y ∷ ws)) x all all.0 in
    elim (Bool-cases (leb (score (draw x (y ∷ ws) i)) (score (draw x (y ∷ ws) j)))) [
      | inl first ↦ subst P (some-injective _ w (rw (first, choose) at h)) a
      | inr second ↦ subst P (some-injective _ w (rw (second, choose) at h)) b
    ]

only_elem : (v x : Worker) (i : ℕ) → get_elem? (v ∷ []) i ≡ some x → v ≡ x
only_elem v x zero h = some-injective v x h
only_elem v x (suc i) h = cc

choose-least :
    (ws : List Worker) (i j : ℕ) (w x : Worker)
    → choose ws i j ≡ some w
    → (get_elem? ws (i % length ws) ≡ some x) ⊎ (get_elem? ws (j % length ws) ≡ some x)
    → score w ≤ score x
unfolding choose
choose-least [] i j w x h d = cc
choose-least (v ∷ []) i j w x h d = ground (arith, only_elem v x (i % 1), only_elem v x (j % 1))
choose-least (v ∷ y ∷ ws) i j w x h d = ground (
  arith,
  get_elem?-get_or (v ∷ y ∷ ws) (i % length (v ∷ y ∷ ws)) v x,
  get_elem?-get_or (v ∷ y ∷ ws) (j % length (v ∷ y ∷ ws)) v x,
)

choose-nonempty : (ws : List Worker) (i j : ℕ) → choose ws i j ≡ none → ws ≡ []
unfolding choose
choose-nonempty [] i j h = refl
choose-nonempty (v ∷ []) i j h = cc
choose-nonempty (v ∷ y ∷ ws) i j h = ground arith

-- One of the two draws hits the worker.
abbrev pub IsDrawn : List Worker → ℕ → ℕ → Worker → Type 0
IsDrawn ws i j w = (get_elem? ws (i % length ws) ≡ some w) ⊎ (get_elem? ws (j % length ws) ≡ some w)

get_or_there :
    (ws : List Worker) (i : ℕ) (d : Worker)
    → 0 < length ws
    → get_elem? ws (i % length ws) ≡ some (get_or ws (i % length ws) d)
get_or_there ws i d h =
    let (x, at) = get_elem?_total ws (i % length ws) (grind arith) in
    at ∙ ap some (sym (get_elem?-get_or ws (i % length ws) d x at))

choose-IsDrawn :
    (ws : List Worker) (i j : ℕ) (w : Worker) → choose ws i j ≡ some w → IsDrawn ws i j w
unfolding choose
choose-IsDrawn [] i j w h = cc
choose-IsDrawn (v ∷ []) i j w h = inl (get_or_there (v ∷ []) i v (omega arith) ∙ only i)
  where
    only : (i : ℕ) → some (get_or (v ∷ []) (i % 1) v) ≡ some w
    only i = get_or_only (i % 1) ∙ h
      where
        get_or_only : (k : ℕ) → some (get_or (v ∷ []) k v) ≡ some v
        get_or_only zero = refl
        get_or_only (suc k) = refl
choose-IsDrawn (v ∷ y ∷ ws) i j w h =
    let all = v ∷ y ∷ ws in
    elim (Bool-cases (leb (score (draw v (y ∷ ws) i)) (score (draw v (y ∷ ws) j)))) [
      | inl first ↦ inl (get_or_there all i v (omega arith) ∙ rw (first, choose) at h)
      | inr second ↦ inr (get_or_there all j v (omega arith) ∙ rw (second, choose) at h)
    ]

-- The worker that `Pick` hands out is a ready one that one of its two draws hits, and no worker that
-- they hit has a lower score.
pub pick_least :
    (p : Pool) (i j : ℕ) (w : Worker)
    → pick p i j ≡ some w
    → IsDrawn (ready p) i j w × ((x : Worker) → IsDrawn (ready p) i j x → score w ≤ score x)
unfolding pick
pick_least p i j w h = (choose-IsDrawn (ready p) i j w h, λ x d. choose-least (ready p) i j w x h d)

abbrev Serves : Pool → Worker → Type 0
Serves p w = (lookup w.id p.workers ≡ some w) × (w.state ≡ "ready")

ready_of-All :
    (P : Worker → Type 0) (ws : Dict Worker)
    → AllEntries (λ k w. w.state ≡ "ready" → P w) ws
    → All P (ready_of ws)
unfolding ready_of
ready_of-All P [] all = tt
ready_of-All P ((k, w) ∷ ws) all = elim (Bool-cases (is_ready w)) [
  | inl up ↦ rw up (all.0 ((eq_iff w.state "ready").0 up), ready_of-All P ws all.1)
  | inr down ↦ rw down (ready_of-All P ws all.1)
]

ready-Serves : (p : Pool) → IsValid p → All (Serves p) (ready p)
unfolding ready
ready-Serves p v =
    ready_of-All (Serves p) p.workers (found p.workers v.ids (entries_found p.workers v.keys))
  where
    found :
        (ws : Dict Worker)
        → AllEntries (λ k w. w.id ≡ k) ws
        → AllEntries (λ k w. lookup k p.workers ≡ some w) ws
        → AllEntries (λ k w. w.state ≡ "ready" → Serves p w) ws
    found [] ids here = tt
    found ((k, w) ∷ ws) ids here = (
      (λ up. (subst (λ t. lookup t p.workers ≡ some w) (sym ids.0) here.0, up)),
      found ws ids.1 here.1,
    )

others-All :
    (P : Worker → Type 0) (x : String) (ws : List Worker)
    → All P ws
    → All (λ w. P w × (w.id ≢ x)) (others x ws)
unfolding others
others-All P x [] all = tt
others-All P x (w ∷ ws) all = elim (Bool-cases (w.id =ₛ x)) [
  | inl same ↦ rw same (others-All P x ws all.1)
  | inr other ↦ rw other ((all.0, λ e. ground (arith, eq_iff w.id x)), others-All P x ws all.1)
]

-- `Pick` on a valid pool hands out only a worker that is in it, under its own id, and ready.
pub pick_serves :
    (p : Pool) (i j : ℕ) (w : Worker)
    → IsValid p
    → pick p i j ≡ some w
    → (lookup w.id p.workers ≡ some w) × (w.state ≡ "ready")
unfolding pick
pick_serves p i j w v h = choose-All (Serves p) (ready p) i j w (ready-Serves p v) h

-- `PickExcept` on a valid pool hands out only a worker that is in it, ready, and not the excluded one.
pub pick_except_serves :
    (p : Pool) (x : String) (i j : ℕ) (w : Worker)
    → IsValid p
    → pick_except p x i j ≡ some w
    → (lookup w.id p.workers ≡ some w) × (w.state ≡ "ready") × (w.id ≢ x)
unfolding pick_except
pick_except_serves p x i j w v h =
    let (serves, other) =
      choose-All (λ w. Serves p w × (w.id ≢ x)) (others x (ready p)) i j w
        (others-All (Serves p) x (ready p) (ready-Serves p v)) h in
    (serves.0, serves.1, other)

ready_of-nonempty :
    (k : String) (w : Worker) (ws : Dict Worker)
    → lookup k ws ≡ some w
    → w.state ≡ "ready"
    → ready_of ws ≢ []
unfolding ready_of lookup
ready_of-nonempty k w [] found up e = cc
ready_of-nonempty k w ((j, v) ∷ ws) found up e =
    ground (arith, eq_iff w.state "ready", ready_of-nonempty k w ws)

others-nonempty :
    (x k : String) (w : Worker) (ws : Dict Worker)
    → lookup k ws ≡ some w
    → w.state ≡ "ready"
    → w.id ≢ x
    → others x (ready_of ws) ≢ []
unfolding ready_of others lookup
others-nonempty x k w [] found up ne e = cc
others-nonempty x k w ((j, v) ∷ ws) found up ne e =
    ground (arith, eq_iff w.state "ready", eq_iff w.id x, others-nonempty x k w ws)

chosen : (ws : List Worker) (i j : ℕ) → ws ≢ [] → (w : Worker) × (choose ws i j ≡ some w)
chosen ws i j ne = elim (Option-cases (choose ws i j)) [
  | inl e ↦ absurd (ne (choose-nonempty ws i j e))
  | inr found ↦ found
]

-- If any worker of the pool is ready, `Pick` hands one out, whatever it draws.
pub pick_finds :
    (p : Pool) (i j : ℕ) (id : String) (w : Worker)
    → lookup id p.workers ≡ some w
    → w.state ≡ "ready"
    → (x : Worker) × (pick p i j ≡ some x)
unfolding pick ready
pick_finds p i j id w found up =
    chosen (ready_of p.workers) i j (ready_of-nonempty id w p.workers found up)

-- If any worker of the pool is ready and not the excluded one, `PickExcept` hands one out.
pub pick_except_finds :
    (p : Pool) (x : String) (i j : ℕ) (id : String) (w : Worker)
    → lookup id p.workers ≡ some w
    → w.state ≡ "ready"
    → w.id ≢ x
    → (y : Worker) × (pick_except p x i j ≡ some y)
unfolding pick_except ready
pick_except_finds p x i j id w found up ne =
    chosen (others x (ready_of p.workers)) i j (others-nonempty x id w p.workers found up ne)
