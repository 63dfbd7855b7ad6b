-- ===== src/Chaos/Faults/Panics.antt =====
-- The panics of the fault store: at a nil request, where chaosd/internal/toxiproxy/client.go drops the
-- error of `http.NewRequest`.
use llms_chaos.Prelude.{
  ℕ, ◌≡◌, refl, String, ◌++ₛ◌, Bool, true, false, Option, none, some, leb, if_elim,
}
use llms_chaos.Prelude.Int.{ℤ}
use llms_chaos.Prelude.Dict.{lookup}
use llms_chaos.Chaos.World.{
  Env, Log, Failure, no_request, is_panic, Explained, resets, add_toxic_status, toggle_status,
  populate_status,
}
use llms_chaos.Chaos.Toxiproxy
use llms_chaos.Chaos.Toxiproxy.{Client, tested, untested, add_toxic, toggle}
use llms_chaos.Chaos.Faults.{
  Store, Injection, injected, refused, ports, panic_of, record_fault, kill_process, kill, latency,
  latency_toxic, partition, heal, reset, ensure_proxies,
}
use llms_chaos.Chaos.Faults.Injects.{toggle-Refuses}

module _ (env : Env) where
  tested-Explained :
      (bad : ℕ → Failure) (reply : Option ℕ)
      → ((n : ℕ) → Explained env (some (bad n)))
      → Explained env (tested bad reply)
  tested-Explained bad none h = tt
  tested-Explained bad (some status) h =
      if_elim (Explained env) (leb 300 status) (some (bad status)) none (λ _. h status) (λ _. tt)

  toggle-Explained :
      (c : Client) (proxy : String) (on : Bool) (log : Log)
      → Explained env (toggle env c proxy on log).0
  unfolding toggle
  toggle-Explained c proxy on log =
      let url = c.base_url ++ₛ "/proxies/" ++ₛ proxy in
      if_elim (λ (r : Option Failure × Log). Explained env r.0) (env.parses url) _
        (some (no_request url), log)
        (λ _. tested-Explained toggle_status (env.reply log _) (λ n. tt)) (λ bad. bad)

  abbrev pub ExplainedInjection : Injection × Store → Type 0
  ExplainedInjection (injected f, s) = Unit
  ExplainedInjection (refused e, s) = Explained env (some e)

  record_fault-Explained :
      (kind target detail : String) (s : Store) (r : Option Failure × Log)
      → Explained env r.0
      → ExplainedInjection (record_fault env kind target detail s r)
  record_fault-Explained kind target detail s (none, log) h = tt
  record_fault-Explained kind target detail s (some e, log) h = h

  kill_process-Explained :
      (target : String) (s : Store) (port : Option ℕ)
      → ExplainedInjection (kill_process env target s port)
  kill_process-Explained target s none = tt
  kill_process-Explained target s (some port) = tt

  pub kill-Explained : (target : String) (s : Store) → ExplainedInjection (kill env target s)
  unfolding kill
  kill-Explained target s = kill_process-Explained target s (lookup target ports)

  pub latency-Explained :
      (target : String) (ms jitter : ℤ) (s : Store)
      → ExplainedInjection (latency env target ms jitter s)
  unfolding latency add_toxic
  latency-Explained target ms jitter s =
      record_fault-Explained "latency" target _ s
        (add_toxic env s.toxi target (latency_toxic ms jitter) s.log)
        (tested-Explained add_toxic_status (env.reply s.log _) (λ n. tt))

  pub partition-Explained :
      (target : String) (s : Store) → ExplainedInjection (partition env target s)
  unfolding partition
  partition-Explained target s =
      record_fault-Explained "partition" target "proxy disabled" s
        (toggle env s.toxi target false s.log) (toggle-Explained s.toxi target false s.log)

  -- What a heal returns is nil, or it panics.
  abbrev pub Healed : Store → Option Failure × Store → Type 0
  Healed s (none, s') = (s'.seq ≡ s.seq) × (resets s'.log ≡ resets s.log)
  Healed s (some e, s') = (s'.seq ≡ s.seq) × (is_panic e ≡ true) × Explained env (some e)

  healed :
      (s : Store) (r : Option Failure × Log)
      → resets r.1 ≡ resets s.log
      → Explained env r.0
      → Healed s (panic_of r.0, record s { log = r.1 })
  healed s (none, log) same h = (refl, same)
  healed s (some e, log) same h =
      if_elim (λ o. Healed s (o, record s { log = log })) (is_panic e) (some e) none
        (λ panic. (refl, panic, h)) (λ _. (refl, same))

  pub heal-Healed : (target : String) (s : Store) → Healed s (heal env target s)
  unfolding heal
  heal-Healed target s =
      healed s (toggle env s.toxi target true s.log) (toggle-Refuses env s.toxi target true s.log).0
        (toggle-Explained s.toxi target true s.log)

  pub heal-Explained : (target : String) (s : Store) → Explained env (heal env target s).0
  heal-Explained target s = explained s (heal env target s) (heal-Healed target s)
    where
      explained : (s : Store) (r : Option Failure × Store) → Healed s r → Explained env r.0
      explained s (none, s') h = tt
      explained s (some e, s') h = h.2

  pub untested-Explained : (reply : Option ℕ) → Explained env (untested reply)
  untested-Explained none = tt
  untested-Explained (some status) = tt

  pub reset-Explained : (s : Store) → Explained env (reset env s).0
  unfolding reset Toxiproxy.reset
  reset-Explained s = untested-Explained (env.reply s.log _)

  pub ensure_proxies-Explained : (s : Store) → Explained env (ensure_proxies env s).0
  unfolding ensure_proxies Toxiproxy.populate
  ensure_proxies-Explained s = tested-Explained populate_status (env.reply s.log _) (λ n. tt)
