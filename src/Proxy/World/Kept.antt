-- ===== src/Proxy/World/Kept.antt =====
-- What every run of the world keeps: the steps of gateway/internal/proxy/proxy.go and the poller of
-- gateway/cmd/gateway/main.go.
use llms_chaos.Prelude.{
  ◌≡◌, subst, List, [], ◌∷◌, ◌++◌, Option, none, some, get_elem?, set, ℕ, refl,
}
use mathlib.Core.Option.{some-injective}
use llms_chaos.Proxy.{Forwarder}
use llms_chaos.Proxy.Attempt.Kept.{IsKept}
use llms_chaos.Proxy.Serve
use llms_chaos.Proxy.Serve.{Request, receive}
use llms_chaos.Proxy.Serve.Kept.{step-Kept}
use llms_chaos.Proxy.World.{
  World, WorldEvent, arrives, polls, runs, put_back, run_one, world_step, world_run,
}
use llms_chaos.Proxy.World.Slots.{world_run_keeps}
use llms_chaos.Router.{update}

module _ {R : Forwarder → Forwarder → Type 0} (k : IsKept R) where
  becomes-Kept :
      (f : Forwarder) (x w' : World) → some x ≡ some w' → R f x.forwarder → R f w'.forwarder
  becomes-Kept f x w' h kept = subst (λ (t : World). R f t.forwarder) (some-injective x w' h) kept

  put_back-Kept :
      (w w' : World) (i : ℕ) (r : Request) (e : Serve.Event) (x : Option (Forwarder × Request))
      → Serve.step w.forwarder r e ≡ x
      → put_back w i x ≡ some w'
      → R w.forwarder w'.forwarder
  put_back-Kept w w' i r e none went h = cc
  put_back-Kept w w' i r e (some (f', r')) went h =
      becomes-Kept w.forwarder (record { forwarder = f'; requests = set w.requests i r' }) w' h
        (step-Kept k w.forwarder f' r r' e went)

  run_one-Kept :
      (w w' : World) (i : ℕ) (x : Option Request) (e : Serve.Event)
      → run_one w i x e ≡ some w'
      → R w.forwarder w'.forwarder
  run_one-Kept w w' i none e h = cc
  run_one-Kept w w' i (some r) e h = put_back-Kept w w' i r e (Serve.step w.forwarder r e) refl h

  world_step-Kept :
      (w w' : World) (e : WorldEvent) → world_step w e ≡ some w' → R w.forwarder w'.forwarder
  unfolding world_step
  world_step-Kept w w' (arrives body key) h =
      becomes-Kept w.forwarder (record w { requests = w.requests ++ receive body key ∷ [] }) w' h
        (k.stays w.forwarder)
  world_step-Kept w w' (polls ss) h =
      let f = w.forwarder in
      becomes-Kept f (record w { forwarder = record f { pool = update f.pool ss } }) w' h
        (k.repools f (update f.pool ss))
  world_step-Kept w w' (runs i e) h = run_one-Kept w w' i (get_elem? w.requests i) e h

  pub world_run-Kept :
      (w w' : World) (es : List WorldEvent) → world_run w es ≡ some w' → R w.forwarder w'.forwarder
  world_run-Kept w w' es h =
      let f = w.forwarder in
      world_run_keeps (λ t. R f t.forwarder)
        (λ t t' e kept went. k.both f t.forwarder t'.forwarder kept (world_step-Kept t t' e went)) w
        w' es (k.stays f) h
