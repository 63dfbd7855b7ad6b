-- ===== src/Chaos/Faults/Injects.antt =====
-- What the three injections of the fault store have in common.
use llms_chaos.Prelude.{
  ℕ, ◌+◌, ◌≤◌, ◌≡◌, refl, String, Bool, true, false, if_elim, leb, ◌++ₛ◌, Option, none, some,
  eq_iff, arith, ap,
}
use text.Mathlib.TextLemmas.{append_cancel_left}
use llms_chaos.Prelude.Int.{ℤ}
use llms_chaos.Prelude.Decimal.{show, show_ℤ, show-injective}
use llms_chaos.Prelude.Dict.{lookup, insert, lookup-insert}
use llms_chaos.Chaos.World.{
  Env, Log, resets, is_refusal, Failure, no_request, add_toxic_status, toggle_status,
}
use llms_chaos.Chaos.Toxiproxy.{Client, tested, add_toxic, toggle}
use llms_chaos.Chaos.Faults.{
  Store, Injection, injected, refused, fault_id, latency_toxic, add, record_fault, kill_process,
  kill, latency, partition, ports,
}

pub fault_id-injective : (m n : ℕ) → fault_id m ≡ fault_id n → m ≡ n
unfolding fault_id
fault_id-injective m n h = show-injective m n (append_cancel_left "flt-" (show m) (show n) h)

-- A refused injection leaves the faults, and any other puts one in under the next identifier. Neither
-- resets the proxies.
abbrev pub Injects : String → String → Store → Injection × Store → Type 0
Injects kind target s (refused e, s') =
    (s'.faults ≡ s.faults)
    × (s'.seq ≡ s.seq)
    × (resets s'.log ≡ resets s.log)
    × (is_refusal e ≡ true)
Injects kind target s (injected f, s') =
    (s'.faults ≡ insert (fault_id (s.seq + 1)) f s.faults)
    × (s'.seq ≡ s.seq + 1)
    × (resets s'.log ≡ resets s.log)
    × (f.id ≡ fault_id (s.seq + 1))
    × (f.kind ≡ kind)
    × (f.target ≡ target)

abbrev MayRefuse : Option Failure → Type 0
MayRefuse none = Unit
MayRefuse (some e) = is_refusal e ≡ true

tested-MayRefuse :
    (bad : ℕ → Failure) (reply : Option ℕ)
    → ((n : ℕ) → is_refusal (bad n) ≡ true)
    → MayRefuse (tested bad reply)
tested-MayRefuse bad none h = refl
tested-MayRefuse bad (some status) h =
    if_elim MayRefuse (leb 300 status) (some (bad status)) none (λ _. h status) (λ _. tt)

-- A toggle is no reset, and an error of it is a refusal.
abbrev pub Refuses : Env → Log → Option Failure × Log → Type 0
Refuses env log (err, log') = (resets log' ≡ resets log) × MayRefuse err

pub toggle-Refuses :
    (env : Env) (c : Client) (proxy : String) (on : Bool) (log : Log)
    → Refuses env log (toggle env c proxy on log)
unfolding toggle
toggle-Refuses env c proxy on log =
    let url = c.base_url ++ₛ "/proxies/" ++ₛ proxy in
    if_elim (Refuses env log) (env.parses url) _ (some (no_request url), log)
      (λ _. (refl, tested-MayRefuse toggle_status (env.reply log _) (λ n. refl)))
      (λ _. (refl, refl))

module _ (env : Env) (target : String) (s : Store) where
  record_fault-Injects :
      (kind detail : String) (r : Option Failure × Log)
      → resets r.1 ≡ resets s.log
      → MayRefuse r.0
      → Injects kind target s (record_fault env kind target detail s r)
  unfolding add
  record_fault-Injects kind detail (some e, log) h m = (refl, refl, h, m)
  record_fault-Injects kind detail (none, log) h m = (refl, refl, h, refl, refl, refl)

  kill_process-Injects :
      (port : Option ℕ) → Injects "kill" target s (kill_process env target s port)
  unfolding add
  kill_process-Injects none = (refl, refl, refl, refl)
  kill_process-Injects (some port) = (refl, refl, refl, refl, refl, refl)

  pub kill-Injects : Injects "kill" target s (kill env target s)
  unfolding kill
  kill-Injects = kill_process-Injects (lookup target ports)

  pub latency-Injects :
      (ms jitter : ℤ) → Injects "latency" target s (latency env target ms jitter s)
  unfolding latency add_toxic
  latency-Injects ms jitter =
      record_fault-Injects "latency" (show_ℤ ms ++ₛ "ms jitter " ++ₛ show_ℤ jitter ++ₛ "ms")
        (add_toxic env s.toxi target (latency_toxic ms jitter) s.log) refl
        (tested-MayRefuse add_toxic_status (env.reply s.log _) (λ n. refl))

  pub partition-Injects : Injects "partition" target s (partition env target s)
  unfolding partition
  partition-Injects =
      let (same, may) = toggle-Refuses env s.toxi target false s.log in
      record_fault-Injects "partition" "proxy disabled" (toggle env s.toxi target false s.log) same
        may

-- A fault that was put in before stays.
pub Injects-lookup :
    (kind target : String) (s : Store) (r : Injection × Store) (m : ℕ)
    → Injects kind target s r
    → m ≤ s.seq
    → lookup (fault_id m) r.1.faults ≡ lookup (fault_id m) s.faults
Injects-lookup kind target s (refused e, s') m h le = ap (lookup (fault_id m)) h.0
Injects-lookup kind target s (injected f, s') m h le = ground (
  arith,
  lookup-insert (fault_id (s.seq + 1)) (fault_id m) f s.faults,
  eq_iff (fault_id (s.seq + 1)) (fault_id m),
  fault_id-injective (s.seq + 1) m,
)
