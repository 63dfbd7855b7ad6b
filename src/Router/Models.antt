-- ===== src/Router/Models.antt =====
-- The list that `Models` returns (router.go).
use llms_chaos.Prelude.{
  ◌≡◌, refl, Bool, true, false, not, ◌&&◌, ◌||◌, List, [], ◌∷◌, arith, String, ◌=ₛ◌, eq_iff,
}
use llms_chaos.Prelude.Dict.{Dict}
use llms_chaos.Router.{Worker, Pool, elem, models_from, models}

abbrev pub has_model : String → Dict Worker → Bool
has_model m [] = false
has_model m ((_, w) ∷ ws) = (w.model =ₛ m) || has_model m ws

abbrev pub is_distinct : List String → Bool
is_distinct [] = true
is_distinct (x ∷ xs) = not (elem x xs) && is_distinct xs

elem-models_from :
    (m : String) (found : List String) (ws : Dict Worker)
    → elem m (models_from found ws) ≡ (not (m =ₛ "") && not (elem m found) && has_model m ws)
unfolding models_from
elem-models_from m found [] = ground arith
elem-models_from m found ((k, w) ∷ ws) =
    ground (
      arith,
      eq_iff w.model m,
      elem-models_from m found ws,
      elem-models_from m (w.model ∷ found) ws,
    )

models_from-is_distinct :
    (found : List String) (ws : Dict Worker) → is_distinct (models_from found ws) ≡ true
unfolding models_from
models_from-is_distinct found [] = refl
models_from-is_distinct found ((k, w) ∷ ws) = ground (
  arith,
  eq_iff w.model w.model,
  elem-models_from w.model (w.model ∷ found) ws,
  models_from-is_distinct found ws,
  models_from-is_distinct (w.model ∷ found) ws,
)

-- `Models` lists exactly the models of the workers, but for the empty one, and each once.
pub models_exact :
    (p : Pool) (m : String)
    → (elem m (models p) ≡ (not (m =ₛ "") && has_model m p.workers))
      × (is_distinct (models p) ≡ true)
unfolding models
models_exact p m =
    (ground (arith, elem-models_from m [] p.workers), models_from-is_distinct [] p.workers)
