-- ===== src/Chaos/Toxiproxy.antt =====
-- `Client` of chaosd/internal/toxiproxy/client.go. An error is `some`, `nil` is `none`. `RemoveToxic` and
-- `Toggle` drop the error of `NewRequest`, and then use a nil request; `Post` returns that error.
use llms_chaos.Prelude.{
  ℕ, Bool, String, ◌=ₛ◌, ◌++ₛ◌, List, ◌∷◌, Option, none, some, leb, if◌then◌else◌,
}
use llms_chaos.Chaos.World.{
  Env, Log, post, delete, nothing, proxies, toxic, enabled, Toxic, ProxySpec, http, Failure,
  transport, no_request, populate_status, add_toxic_status, toggle_status,
}

pub record Client : Type 0 where
  pub base_url : String

unfoldable pub new : String → Client
new base_url = record { base_url = if base_url =ₛ "" then "http://localhost:8474" else base_url }

-- What a method makes of a reply that it tests by `StatusCode >= 300`.
abbrev pub tested : (ℕ → Failure) → Option ℕ → Option Failure
tested bad none = some transport
tested bad (some status) = if leb 300 status then some (bad status) else none

-- What a method makes of a reply whose status it does not read.
abbrev pub untested : Option ℕ → Option Failure
untested none = some transport
untested (some status) = none

module _ (env : Env) (c : Client) where
  unfoldable pub populate : List ProxySpec → Log → Option Failure × Log
  populate specs log =
      let a = http post (c.base_url ++ₛ "/populate") (proxies specs) in
      (tested populate_status (env.reply log a), a ∷ log)

  unfoldable pub add_toxic : String → Toxic → Log → Option Failure × Log
  add_toxic proxy t log =
      let a = http post (c.base_url ++ₛ "/proxies/" ++ₛ proxy ++ₛ "/toxics") (toxic t) in
      (tested add_toxic_status (env.reply log a), a ∷ log)

  unfoldable pub remove_toxic : String → String → Log → Option Failure × Log
  remove_toxic proxy name log =
      let url = c.base_url ++ₛ "/proxies/" ++ₛ proxy ++ₛ "/toxics/" ++ₛ name in
      let a = http delete url nothing in
      if env.parses url then (untested (env.reply log a), a ∷ log) else (some (no_request url), log)

  unfoldable pub toggle : String → Bool → Log → Option Failure × Log
  toggle proxy on log =
      let url = c.base_url ++ₛ "/proxies/" ++ₛ proxy in
      let a = http post url (enabled on) in
      if env.parses url
      then (tested toggle_status (env.reply log a), a ∷ log)
      else (some (no_request url), log)

  unfoldable pub reset : Log → Option Failure × Log
  reset log =
      let a = http post (c.base_url ++ₛ "/reset") nothing in (untested (env.reply log a), a ∷ log)
