-- ===== src/Chaos/Machine.antt =====
-- What the process of chaosd/cmd/chaos/main.go finds around it, its server, and its calls of the other
-- components.
pub mod Calls
use llms_chaos.Prelude.{ℕ, String, ◌++ₛ◌, List, [], ◌∷◌, Option, none, some}
use llms_chaos.Prelude.Int.{ℤ}
use llms_chaos.Prelude.Decimal.{show, parse_int}
use llms_chaos.Prelude.Dict.{Dict, lookup}
use llms_chaos.Chaos.World.{Env, post, megabytes, http, Failure, no_request, unknown_worker}
use llms_chaos.Chaos.Toxiproxy.{untested}
use llms_chaos.Chaos.Faults
use llms_chaos.Chaos.Faults.{Store, Fault, Injection, injected, refused}
use llms_chaos.Chaos.Experiment
use llms_chaos.Chaos.Experiment.{Definition, Loaded, loaded, unread, undecoded}
use llms_chaos.Chaos.Gameday
use llms_chaos.Chaos.Gameday.{Event, Played, nil_request}
use llms_chaos.Chaos.Reporter
use llms_chaos.Chaos.Process.{
  failed, bad_number, bad_file, returns, panics, M, or_panic, ◌>>=◌, ◌>>◌, pure, println, fail,
  fatal, value_or_fatal, on_store,
}

pub data Verb : Type 0 where
  get other : Verb

-- A request to the server: `GET` or another method at `/api/faults`, or any at the other two paths.
pub data Request : Type 0 where
  faults : Verb → Request
  reset metrics : Request

pub data Reply : Type 0 where
  listed : List Fault → Reply
  method_not_allowed reset_ok : Reply
  gauge : String → Reply

-- The machine around the process: the servers it calls, the requests that it serves until the server
-- stops, its environment, the clock, the greatest capacity that
-- `make` takes, and what the libraries make of a text or a file.
pub record Machine : Type 0 where
  pub env : Env
  pub requests : List Request
  pub getenv : String → String
  pub unix_nano : ℤ
  pub draw : ℤ → ℕ → ℕ → ℕ
  pub room : ℤ
  pub parse_time : String → Option ℤ
  pub read_file : String → Option String
  pub decode : String → Option Definition
  pub lib : Reporter.Library
  pub world : Reporter.World

-- The same map as the fault store's `ports`.
abbrev pub worker_ports : Dict ℕ
worker_ports = ("worker-1", 9001) ∷ ("worker-2", 9002) ∷ ("worker-3", 9003) ∷ []

-- An error that is given to `fatal`, or a panic.
abbrev pub fail_by {ℓ} : {A : Type ℓ} → Failure → M A
fail_by (no_request url) s = panics (nil_request url)
fail_by e s = fail (failed e) s

abbrev pub fatal_failure : Option Failure → M (Unit {0})
fatal_failure none = fatal none
fatal_failure (some e) = fail_by e

abbrev pub fault_of : Injection → M Fault
fault_of (injected f) = pure f
fault_of (refused e) = fail_by e

abbrev pub definition_of : Loaded → M Definition
definition_of (loaded d) = pure d
definition_of unread = fail bad_file
definition_of undecoded = fail bad_file

abbrev pub events_of : Played → M (List Event)
events_of (done, none, store) s = returns done (record s { store = store })
events_of (done, some e, store) s = fail_by e (record s { store = store })

module _ (m : Machine) where
  unfoldable pub handle : Request → Store → Reply × Store
  handle (faults get) s = (listed (Faults.list s), s)
  handle (faults other) s = (method_not_allowed, s)
  handle reset s = (reset_ok, (Faults.reset m.env s).1)
  handle metrics s = (gauge ("chaos_fault_active " ++ₛ show (Faults.active s)), s)

  unfoldable pub serve : List Request → Store → List Reply × Store
  serve [] s = ([], s)
  serve (r ∷ requests) s =
      let (reply, s') = handle r s in
      let (replies, s'') = serve requests s' in (reply ∷ replies, s'')

  -- The reply of a worker that was posted to.
  abbrev pub posted : String → String → ℤ → Store → Option ℕ → Option Failure × Store
  posted target path mb s none = (some (unknown_worker target), s)
  posted target path mb s (some port) =
      let a = http post ("http://127.0.0.1:" ++ₛ show port ++ₛ path) (megabytes mb) in
      (untested (m.env.reply s.log a), record s { log = a ∷ s.log })

  unfoldable pub post_worker : String → String → ℤ → Store → Option Failure × Store
  post_worker target path mb s = posted target path mb s (lookup target worker_ports)

  unfoldable pub atoi : String → M ℤ
  atoi text = value_or_fatal (bad_number text) (parse_int text)

  -- An operation of the store whose error is given to `fatal`.
  abbrev pub fatal_store : (Store → Option Failure × Store) → M (Unit {0})
  fatal_store f = do err ← on_store f; fatal_failure err

  abbrev pub fault_or_fatal : (Store → Injection × Store) → M Fault
  fault_or_fatal f = do r ← on_store f; fault_of r

  abbrev pub load_or_fatal : String → M Definition
  load_or_fatal path = definition_of (Experiment.load m.read_file m.decode path)

  abbrev pub print_events : List Event → M (Unit {0})
  print_events [] = pure tt
  print_events (e ∷ events) = do
    println (show e.round ++ₛ " " ++ₛ e.kind ++ₛ " " ++ₛ e.worker)
    print_events events

  -- `gameday.Run` and the `fatal` of its error.
  abbrev pub play : Gameday.Config → M (List Event)
  play cfg s = (or_panic (Gameday.run m.env m.draw m.room s.store cfg) >>= events_of) s
