-- ===== src/Proxy/Serve/Retry.antt =====
-- Which worker the second attempt of a request goes to (proxy.go, `Serve`).
use llms_chaos.Prelude.{ℕ, ◌≡◌, ◌≢◌, refl, false, String, ◌=ₛ◌, eq_iff, some, arith, ◌==◌}
use llms_chaos.Prelude.Dict.{lookup}
use llms_chaos.Proxy.{Forwarder}
use llms_chaos.Proxy.Serve.{Request, choose_primary}
use llms_chaos.Router.{Worker, pick_except}
use llms_chaos.Router.Membership.{IsValid}
use llms_chaos.Router.Choice.{pick_except_serves, pick_except_finds}

module _ (f : Forwarder) (r : Request) (i j k l : ℕ) where
  retried :
      r.attempt ≢ 0
      → r.prev_id ≢ ""
      → (w : Worker) → pick_except f.pool r.prev_id i j ≡ some w
      → (choose_primary f r i j k l).1 ≡ some w
  unfolding choose_primary
  retried later known w found =
      let second : (r.attempt == 0) ≡ false = ground arith in
      let named : (r.prev_id =ₛ "") ≡ false = ground (arith, eq_iff r.prev_id "") in
      rw (second, named, found, choose_primary) refl

  -- With a valid pool, a request beyond its first attempt that knows the primary of the attempt before
  -- goes to a ready worker of the pool other than that one, if there is one, whatever the draws.
  pub retry_avoids_failed :
      (id : String) (v : Worker)
      → r.attempt ≢ 0
      → r.prev_id ≢ ""
      → IsValid f.pool
      → lookup id f.pool.workers ≡ some v
      → v.state ≡ "ready"
      → v.id ≢ r.prev_id
      → (w : Worker) × ((choose_primary f r i j k l).1 ≡ some w)
        × (lookup w.id f.pool.workers ≡ some w)
        × (w.state ≡ "ready")
        × (w.id ≢ r.prev_id)
  retry_avoids_failed id v later known valid found up other =
      let (w, picked) = pick_except_finds f.pool r.prev_id i j id v found up other in
      let (there, is_up, differs) = pick_except_serves f.pool r.prev_id i j w valid picked in
      (w, retried later known w picked, there, is_up, differs)
