-- ===== src/Chaos/World.antt =====
-- What chaosd does to the machines around it: HTTP requests, `pkill` and sleeping. The log has every
-- action, newest first. What the machines answer and what the clock says are parameters that may
-- depend on everything done before.
use llms_chaos.Prelude.{
  ℕ, ◌-◌, ◌*◌, suc, Bool, true, false, String, List, [], ◌∷◌, ◌≡◌, Option, none, some,
  if◌then◌else◌,
}
use llms_chaos.Prelude.Int.{ℤ, pos, negsuc, to_int64}

pub data Method : Type 0 where
  get post delete : Method

pub record ProxySpec : Type 0 where
  pub name : String
  pub listen : String
  pub upstream : String
  pub enabled : Bool

-- The toxicity, a float64 in the code, is held in percent.
pub record Toxic : Type 0 where
  pub name : String
  pub kind : String
  pub stream : String
  pub toxicity : ℕ
  pub attributes : List (String × ℤ)

-- What is marshalled to the JSON body of a request.
pub data Body : Type 0 where
  nothing : Body
  proxies : List ProxySpec → Body
  toxic : Toxic → Body
  enabled : Bool → Body
  megabytes : ℤ → Body

pub data Action : Type 0 where
  http : Method → String → Body → Action
  pkill : String → Action
  sleep : ℤ → Action

abbrev pub Log : Type 0
Log = List Action

-- A reply is a status, or nothing if there is no reply. `parses` says whether `http.NewRequest` takes a
-- URL.
pub record Env : Type 0 where
  pub parses : String → Bool
  pub reply : Log → Action → Option ℕ
  pub now : Log → ℤ

-- `no_request` is no error but the panic at the nil request that `NewRequest` gives for the URL; the
-- code has nothing that recovers from it.
pub data Failure : Type 0 where
  no_request : String → Failure
  transport : Failure
  populate_status add_toxic_status toggle_status : ℕ → Failure
  unknown_worker : String → Failure
  unknown_fault : ℕ → String → Failure
  unreachable not_ready : ℕ → Failure
  unknown_kind : String → Failure

abbrev pub is_panic : Failure → Bool
is_panic (no_request url) = true
is_panic e = false

-- A panic that is there has a URL that does not parse.
abbrev pub Explained : Env → Option Failure → Type 0
Explained env none = Unit
Explained env (some (no_request url)) = env.parses url ≡ false
Explained env (some e) = Unit

-- The failures of an injection, and those that end an experiment because of the gateway.
abbrev pub is_refusal : Failure → Bool
is_refusal transport = true
is_refusal (no_request url) = true
is_refusal (add_toxic_status n) = true
is_refusal (toggle_status n) = true
is_refusal (unknown_worker w) = true
is_refusal e = false

abbrev pub blames_gateway : Failure → Bool
blames_gateway (unreachable i) = true
blames_gateway (not_ready i) = true
blames_gateway e = false

-- `time.Duration(n) * time.Second`
unfoldable pub seconds : ℤ → ℤ
unfolding to_int64
seconds (pos n) = to_int64 (pos (n * 1000000000))
seconds (negsuc n) = to_int64 (negsuc (suc n * 1000000000 - 1))

-- The request of a client's `Reset`, which is the one POST without a body.
abbrev pub is_reset : Action → Bool
is_reset (http post url nothing) = true
is_reset a = false

abbrev pub resets : Log → ℕ
resets [] = 0
resets (a ∷ log) = if is_reset a then suc (resets log) else resets log

-- Nothing was done since the last reset.
abbrev pub is_clean : Log → Bool
is_clean [] = true
is_clean (a ∷ log) = is_reset a
