-- ===== src/Chaos/Faults.antt =====
-- The fault store of chaosd/internal/faults/faults.go. The counter is an int that stays far below its
-- bound; a range over the map of ports takes its entries in the order of the list given for them.
pub mod Injects
pub mod Fresh
pub mod Panics
use llms_chaos.Prelude.{
  ℕ, ◌+◌, Bool, true, false, not, if◌then◌else◌, String, ◌=ₛ◌, ◌++ₛ◌, List, [], ◌∷◌, Option, none,
  some, map, length,
}
use Prim.Native.String
use llms_chaos.Prelude.Int.{ℤ}
use llms_chaos.Prelude.Decimal.{show, show_ℤ}
use llms_chaos.Prelude.Dict.{Dict, lookup, insert, retain}
use llms_chaos.Chaos.World.{Env, Log, Toxic, ProxySpec, pkill, Failure, is_panic, unknown_worker}
use llms_chaos.Chaos.Toxiproxy
use llms_chaos.Chaos.Toxiproxy.{Client}

abbrev pub ports : Dict ℕ
ports = ("worker-1", 9001) ∷ ("worker-2", 9002) ∷ ("worker-3", 9003) ∷ []

pub record Fault : Type 0 where
  pub id : String
  pub kind : String
  pub target : String
  pub detail : String
  pub created_at : ℤ

pub record Store : Type 0 where
  pub faults : Dict Fault
  pub seq : ℕ
  pub toxi : Client
  pub log : Log

unfoldable pub new_store : Client → Store
new_store toxi = record { faults = []; seq = 0; toxi = toxi; log = [] }

-- `fmt.Sprintf("flt-%d", n)`
unfoldable pub fault_id : ℕ → String
fault_id n = "flt-" ++ₛ show n

-- What an injection returns: a fault, or an error (a panic among them).
pub data Injection : Type 0 where
  injected : Fault → Injection
  refused : Failure → Injection

unfoldable pub remove : String → Store → Store
remove id s = record s { faults = retain (λ j _. not (j =ₛ id)) s.faults }

unfoldable pub list : Store → List Fault
list s = map (λ e. e.1) s.faults

unfoldable pub active : Store → ℕ
active s = length s.faults

-- `id[len(id)-1:]` of an id that is not empty.
abbrev pub last_char : String → String
last_char String.[] = String.[]
last_char (String.◌∷◌ c String.[]) = String.◌∷◌ c String.[]
last_char (String.◌∷◌ c (String.◌∷◌ d id)) = last_char (String.◌∷◌ d id)

-- The verb `%02s` puts a zero in front of the one character.
abbrev pub proxy_spec : String × ℕ → ProxySpec
proxy_spec (id, port) = record {
  name = id;
  listen = "0.0.0.0:910" ++ₛ last_char id;
  upstream = "127.0.0.1:" ++ₛ show port;
  enabled = true;
}

abbrev pub latency_toxic : ℤ → ℤ → Toxic
latency_toxic ms jitter = record {
  name = "latency_downstream";
  kind = "latency";
  stream = "downstream";
  toxicity = 100;
  attributes = ("latency", ms) ∷ ("jitter", jitter) ∷ [];
}

-- What is left of an error that is dropped: its panic.
abbrev pub panic_of : Option Failure → Option Failure
panic_of none = none
panic_of (some e) = if is_panic e then some e else none

module _ (env : Env) where
  unfoldable pub add : String → String → String → Store → Fault × Store
  add kind target detail s =
      let n = s.seq + 1 in
      let f : Fault = record {
        id = fault_id n;
        kind = kind;
        target = target;
        detail = detail;
        created_at = env.now s.log;
      } in
      (f, record s { seq = n; faults = insert (fault_id n) f s.faults })

  unfoldable pub ensure_proxies : Store → Option Failure × Store
  ensure_proxies s =
      let (err, log) = Toxiproxy.populate env s.toxi (map proxy_spec ports) s.log in
      (err, record s { log = log })

  -- An error of the client ends the method; with none the fault is recorded.
  abbrev record_fault : String → String → String → Store → Option Failure × Log → Injection × Store
  record_fault kind target detail s (some e, log) = (refused e, record s { log = log })
  record_fault kind target detail s (none, log) =
      let (f, s') = add kind target detail (record s { log = log }) in (injected f, s')

  abbrev kill_process : String → Store → Option ℕ → Injection × Store
  kill_process target s none = (refused (unknown_worker target), s)
  kill_process target s (some port) =
      record_fault "kill" target ("sigkill port " ++ₛ show port) s
        (none, pkill ("uvicorn.*" ++ₛ show port) ∷ s.log)

  unfoldable pub kill : String → Store → Injection × Store
  kill target s = kill_process target s (lookup target ports)

  unfoldable pub latency : String → ℤ → ℤ → Store → Injection × Store
  latency target ms jitter s =
      record_fault "latency" target (show_ℤ ms ++ₛ "ms jitter " ++ₛ show_ℤ jitter ++ₛ "ms") s
        (Toxiproxy.add_toxic env s.toxi target (latency_toxic ms jitter) s.log)

  unfoldable pub partition : String → Store → Injection × Store
  partition target s =
      record_fault "partition" target "proxy disabled" s
        (Toxiproxy.toggle env s.toxi target false s.log)

  -- The error of the toggle is dropped.
  unfoldable pub heal : String → Store → Option Failure × Store
  heal target s =
      let (err, log) = Toxiproxy.toggle env s.toxi target true s.log in
      (panic_of err, record s { log = log })

  unfoldable pub reset : Store → Option Failure × Store
  reset s = let (err, log) = Toxiproxy.reset env s.toxi s.log in (err, record s { log = log })
