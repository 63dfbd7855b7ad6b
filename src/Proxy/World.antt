-- ===== src/Proxy/World.antt =====
-- The forwarder of gateway/internal/proxy/proxy.go with all the requests that it has been given, and
-- the poller of gateway/cmd/gateway/main.go beside them: requests arrive, the pool is updated, and any
-- of the requests takes its next step, in any order.
pub mod Slots
pub mod Kept
pub mod Limits
pub mod Leak
pub mod Failures
mod Tests
use llms_chaos.Prelude.{ℕ, String, List, [], ◌∷◌, ◌++◌, Option, none, some, get_elem?, set}
use llms_chaos.Proxy.{Forwarder, ChatRequest}
use llms_chaos.Proxy.Serve
use llms_chaos.Proxy.Serve.{Request, receive}
use llms_chaos.Router.{Snapshot, update}

pub record World : Type 0 where
  pub forwarder : Forwarder
  pub requests : List Request

pub data WorldEvent : Type 0 where
  arrives : Option ChatRequest → String → WorldEvent
  polls : List Snapshot → WorldEvent
  runs : ℕ → Serve.Event → WorldEvent

abbrev pub put_back : World → ℕ → Option (Forwarder × Request) → Option World
put_back w i none = none
put_back w i (some (f, r)) = some (record { forwarder = f; requests = set w.requests i r })

abbrev pub run_one : World → ℕ → Option Request → Serve.Event → Option World
run_one w i none e = none
run_one w i (some r) e = put_back w i (Serve.step w.forwarder r e)

-- `none`: the event cannot happen in this state.
unfoldable pub world_step : World → WorldEvent → Option World
world_step w (arrives body key) = some (record w { requests = w.requests ++ receive body key ∷ [] })
world_step w (polls snapshots) =
    let f = w.forwarder in
    some (record w { forwarder = record f { pool = update f.pool snapshots } })
world_step w (runs i e) = run_one w i (get_elem? w.requests i) e

abbrev pub then_world : Option World → (World → Option World) → Option World
then_world none k = none
then_world (some w) k = k w

unfoldable pub world_run : World → List WorldEvent → Option World
world_run w [] = some w
world_run w (e ∷ es) = then_world (world_step w e) (λ w'. world_run w' es)
