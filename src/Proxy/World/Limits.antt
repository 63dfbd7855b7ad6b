-- ===== src/Proxy/World/Limits.antt =====
-- The limiter of a forwarder (gateway/internal/proxy/proxy.go) moves by its own methods alone, whatever
-- the requests do.
use llms_chaos.Prelude.{◌≡◌, refl, ◌∙◌, ap, sym, String, List, [], ◌∷◌, ◌++◌, some}
use mathlib.Core.Option.{some-injective}
use llms_chaos.Limiter
use llms_chaos.Limiter.{Limiter}
use llms_chaos.Proxy.{Forwarder}
use llms_chaos.Proxy.Attempt.Kept.{IsKept}
use llms_chaos.Proxy.World.{World, WorldEvent, world_run}
use llms_chaos.Proxy.World.Kept.{world_run-Kept}

abbrev pub Calls : Type 0
Calls = List (String × Limiter.Call)

run-append :
    (l : Limiter) (cs ds : Calls) → Limiter.run l (cs ++ ds) ≡ Limiter.run (Limiter.run l cs) ds
unfolding Limiter.run
run-append l [] ds = refl
run-append l (c ∷ cs) ds = run-append (Limiter.step l c) cs ds

-- Calls of the limiter lead from one to the other, if there is one.
abbrev Called : Forwarder → Forwarder → Type 0
Called f f' =
    (l : Limiter) → f.limiter ≡ some l → (cs : Calls) × (f'.limiter ≡ some (Limiter.run l cs))

Called-IsKept : IsKept Called
unfolding Limiter.run
Called-IsKept = record {
  stays = λ f l e. ([], e);
  both = λ f g h p q l e.
      let (cs, e1) = p l e in
      let (ds, e2) = q (Limiter.run l cs) e1 in (cs ++ ds, e2 ∙ ap some (sym (run-append l cs ds)));
  repools = λ f p l e. ([], e);
  breaks = λ f b l e. ([], e);
  hedges = λ f b l e. ([], e);
  limits =
      λ f m c at l e. (c ∷ [], ap (λ x. some (Limiter.step x c)) (some-injective m l (sym at ∙ e)));
  retries = λ f l e. ([], e);
  rejects = λ f l e. ([], e);
  counts = λ f stream elapsed payload ctx_err reads err l e. ([], e);
}

pub world_run-calls :
    (w w' : World) (es : List WorldEvent) (l : Limiter)
    → world_run w es ≡ some w'
    → w.forwarder.limiter ≡ some l
    → (cs : Calls) × (w'.forwarder.limiter ≡ some (Limiter.run l cs))
world_run-calls w w' es l h at = world_run-Kept Called-IsKept w w' es h l at
