-- ===== src/Proxy/World/Slots.antt =====
-- The limiter's slots over all requests (proxy.go): none is lost in the count, and none is counted
-- that no request holds.
use llms_chaos.Prelude.{
  ℕ, zero, suc, ◌+◌, ◌≤◌, ◌≡◌, refl, sym, ◌∙◌, ap, subst, true, String, List, [], ◌∷◌, ◌++◌, Option,
  none, some, arith, get_elem?, set, All, All-get_elem?, All-set, All-snoc, Option-cases, inl, inr,
}
use mathlib.Core.Option.{some-injective}
use llms_chaos.Proxy.{Forwarder, ChatRequest}
use llms_chaos.Proxy.Attempt.Slots.{count_of, has_limiter}
use llms_chaos.Proxy.Serve
use llms_chaos.Proxy.Serve.{Request, receive}
use llms_chaos.Proxy.Serve.Orderly.{IsOrderly, receive-IsOrderly}
use llms_chaos.Proxy.Serve.Slots.{request_holds}
use llms_chaos.Proxy.Serve.Conserved.{step-Kept}
use llms_chaos.Hedge.Race
use llms_chaos.Router.{update}
use llms_chaos.Proxy.World.{
  World, WorldEvent, arrives, polls, runs, put_back, run_one, world_step, world_run,
}

-- The slots of a worker that the requests hold together.
abbrev pub held_by : String → List Request → ℕ
held_by id [] = 0
held_by id (r ∷ rs) = request_holds id r + held_by id rs

held_by-append :
    (j : String) (rs ss : List Request) → held_by j (rs ++ ss) ≡ held_by j rs + held_by j ss
held_by-append j [] ss = omega arith
held_by-append j (r ∷ rs) ss = omega (arith, held_by-append j rs ss)

held_by-set :
    (j : String) (rs : List Request) (i : ℕ) (r r' : Request)
    → get_elem? rs i ≡ some r
    → held_by j (set rs i r') + request_holds j r ≡ held_by j rs + request_holds j r'
held_by-set j [] i r r' h = cc
held_by-set j (x ∷ rs) zero r r' h = omega (arith, ap (request_holds j) (some-injective x r h))
held_by-set j (x ∷ rs) (suc i) r r' h = omega (arith, held_by-set j rs i r r' h)

pub held_by-get_elem? :
    (j : String) (rs : List Request) (i : ℕ) (r : Request)
    → get_elem? rs i ≡ some r
    → request_holds j r ≤ held_by j rs
held_by-get_elem? j [] i r h = cc
held_by-get_elem? j (x ∷ rs) zero r h = omega (arith, ap (request_holds j) (some-injective x r h))
held_by-get_elem? j (x ∷ rs) (suc i) r h = omega (arith, held_by-get_elem? j rs i r h)

receive-holds :
    (j : String) (body : Option ChatRequest) (key : String) → request_holds j (receive body key) ≡ 0
unfolding receive Race.start
receive-holds j none key = refl
receive-holds j (some req) key = refl

-- The limiter counts what the requests hold, for worker `j`.
pub record IsCounted (j : String) (w : World) : Type 0 where
  pub limited : has_limiter w.forwarder ≡ true
  pub orderly : All IsOrderly w.requests
  pub count : count_of j w.forwarder ≡ held_by j w.requests

module _ (j : String) (w w' : World) (c : IsCounted j w) where
  put_back-IsCounted :
      (i : ℕ) (r : Request) (e : Serve.Event) (x : Option (Forwarder × Request))
      → get_elem? w.requests i ≡ some r
      → Serve.step w.forwarder r e ≡ x
      → put_back w i x ≡ some w'
      → IsCounted j w'
  put_back-IsCounted i r e none at went h = cc
  put_back-IsCounted i r e (some (f', r')) at went h =
      let holds = held_by-get_elem? j w.requests i r at in
      let k =
        step-Kept j w.forwarder f' r r' c.limited
          (All-get_elem? IsOrderly w.requests i r c.orderly at) e (omega (arith, holds, c.count))
          went in
      subst (IsCounted j)
        (some-injective (record { forwarder = f'; requests = set w.requests i r' }) w' h)
        (record {
          limited = k.limited;
          orderly = All-set IsOrderly w.requests i r' c.orderly k.orderly;
          count = omega (arith, k.balance, held_by-set j w.requests i r r' at, holds, c.count);
        })

  run_one-IsCounted :
      (i : ℕ) (x : Option Request) (e : Serve.Event)
      → get_elem? w.requests i ≡ x
      → run_one w i x e ≡ some w'
      → IsCounted j w'
  run_one-IsCounted i none e at h = cc
  run_one-IsCounted i (some r) e at h =
      put_back-IsCounted i r e (Serve.step w.forwarder r e) at refl h

  pub world_step-IsCounted : (e : WorldEvent) → world_step w e ≡ some w' → IsCounted j w'
  unfolding world_step
  world_step-IsCounted (arrives body key) h =
      let r = receive body key in
      subst (IsCounted j) (some-injective (record w { requests = w.requests ++ r ∷ [] }) w' h)
        (record {
          limited = c.limited;
          orderly = All-snoc IsOrderly w.requests r c.orderly (receive-IsOrderly body key);
          count =
              omega
                (arith, c.count, held_by-append j w.requests (r ∷ []), receive-holds j body key);
        })
  world_step-IsCounted (polls ss) h =
      let f = w.forwarder in
      subst (IsCounted j)
        (some-injective (record w { forwarder = record f { pool = update f.pool ss } }) w' h)
        (record { limited = c.limited; orderly = c.orderly; count = c.count })
  world_step-IsCounted (runs i e) h = run_one-IsCounted i (get_elem? w.requests i) e refl h

-- What every step of the world keeps, every run keeps.
pub world_run_keeps {ℓ} :
    (Q : World → Type ℓ)
    → ((w w' : World) (e : WorldEvent) → Q w → world_step w e ≡ some w' → Q w')
    → (w w' : World) (es : List WorldEvent) → Q w
    → world_run w es ≡ some w'
    → Q w'
unfolding world_run
world_run_keeps Q keep w w' [] q h = subst Q (some-injective w w' h) q
world_run_keeps Q keep w w' (e ∷ es) q h = elim (Option-cases (world_step w e)) [
  | inl stuck ↦ absurd (ground (arith, stuck))
  | inr (t, went) ↦ world_run_keeps Q keep t w' es (keep w t e q went) (rw went at h)
]

-- From a forwarder whose limiter counts nothing for a worker, and no request, any interleaving of
-- arrivals, pool updates, steps of handlers and steps of races leads to a limiter that counts for the
-- worker exactly the slots that the requests hold: by a call that dials the worker, by an outcome
-- in a race's channel, by a race's result or by a stream.
pub slots_conserved :
    (j : String) (w w' : World) (es : List WorldEvent)
    → has_limiter w.forwarder ≡ true
    → w.requests ≡ []
    → count_of j w.forwarder ≡ 0
    → world_run w es ≡ some w'
    → count_of j w'.forwarder ≡ held_by j w'.requests
slots_conserved j w w' es limited empty idle h =
    (world_run_keeps (IsCounted j) (λ x x' e q g. world_step-IsCounted j x x' q e g) w w' es
      (record {
        limited = limited;
        orderly = subst (All IsOrderly) (sym empty) tt;
        count = idle ∙ sym (ap (held_by j) empty);
      })
      h).count
