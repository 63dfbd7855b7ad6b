-- ===== src/Chaos/Faults/Fresh.antt =====
-- The faults that the store of chaosd/internal/faults/faults.go records, and how many.
use llms_chaos.Prelude.{ℕ, ◌+◌, ◌<◌, ◌≡◌, refl, String, List, [], ◌∷◌, none, eq_iff, arith, length}
use llms_chaos.Prelude.Int.{ℤ}
use llms_chaos.Prelude.Dict.{
  lookup, lookup-insert, IsDict, insert-IsDict, length-insert_new, length-without, lookup-without,
  retain-IsDict, entries,
}
use llms_chaos.Chaos.World.{Env}
use llms_chaos.Chaos.Toxiproxy.{Client}
use llms_chaos.Chaos.Faults
use llms_chaos.Chaos.Faults.{Store, Injection, injected, refused, fault_id, new_store, active}
use llms_chaos.Chaos.Faults.Injects.{
  Injects, fault_id-injective, kill-Injects, latency-Injects, partition-Injects,
}

-- The identifiers in the store are distinct, and those that come next are free.
pub record IsValid (s : Store) : Type 0 where
  pub is_dict : IsDict s.faults
  pub unused : (n : ℕ) → s.seq < n → lookup (fault_id n) s.faults ≡ none

pub new_store-IsValid : (c : Client) → IsValid (new_store c)
unfolding new_store lookup
new_store-IsValid c = record { is_dict = tt; unused = λ n h. refl }

pub Injects-IsValid :
    (kind target : String) (s : Store) (r : Injection × Store)
    → Injects kind target s r
    → IsValid s
    → IsValid r.1
Injects-IsValid kind target s (refused e, s') h v = record {
  is_dict = rw h.0 v.is_dict;
  unused = λ n lt. rw h.0 (v.unused n (omega arith));
}
Injects-IsValid kind target s (injected f, s') h v = record {
  is_dict = rw h.0 (insert-IsDict (fault_id (s.seq + 1)) f s.faults v.is_dict);
  unused = λ n lt.
      rw (h.0, lookup-insert)
        (ground (
          arith,
          eq_iff (fault_id (s.seq + 1)) (fault_id n),
          fault_id-injective (s.seq + 1) n,
          v.unused n,
        ));
}

abbrev pub injected_count : Injection → ℕ
injected_count (injected f) = 1
injected_count (refused e) = 0

Injects-length :
    (kind target : String) (s : Store) (r : Injection × Store)
    → Injects kind target s r
    → IsValid s
    → length r.1.faults ≡ length s.faults + injected_count r.0
Injects-length kind target s (refused e, s') h v = rw h.0 (omega arith)
Injects-length kind target s (injected f, s') h v =
    rw h.0
      (length-insert_new (fault_id (s.seq + 1)) f s.faults (v.unused (s.seq + 1) (omega arith)))

no_faults : (c : Client) → length (new_store c).faults ≡ 0
unfolding new_store
no_faults c = refl

-- A call of one of the store's methods that change it.
pub data Command : Type 0 where
  kill partition heal remove : String → Command
  latency : String → ℤ → ℤ → Command
  add : String → String → String → Command
  ensure_proxies reset : Command

module _ (env : Env) where
  unfoldable pub perform : Command → Store → Store
  perform (kill target) s = (Faults.kill env target s).1
  perform (partition target) s = (Faults.partition env target s).1
  perform (latency target ms jitter) s = (Faults.latency env target ms jitter s).1
  perform (heal target) s = (Faults.heal env target s).1
  perform (remove id) s = Faults.remove id s
  perform (add kind target detail) s = (Faults.add env kind target detail s).1
  perform ensure_proxies s = (Faults.ensure_proxies env s).1
  perform reset s = (Faults.reset env s).1

  unfoldable pub perform_all : List Command → Store → Store
  perform_all [] s = s
  perform_all (c ∷ cs) s = perform_all cs (perform c s)

  -- How many faults a call injects, and how many it takes out.
  unfoldable pub count : Command → Store → ℕ
  count (kill target) s = injected_count (Faults.kill env target s).0
  count (partition target) s = injected_count (Faults.partition env target s).0
  count (latency target ms jitter) s = injected_count (Faults.latency env target ms jitter s).0
  count (add kind target detail) s = 1
  count c s = 0

  unfoldable pub removed : Command → Store → ℕ
  removed (remove id) s = entries (lookup id s.faults)
  removed c s = 0

  unfoldable pub injections : List Command → Store → ℕ
  injections [] s = 0
  injections (c ∷ cs) s = count c s + injections cs (perform c s)

  unfoldable pub removals : List Command → Store → ℕ
  removals [] s = 0
  removals (c ∷ cs) s = removed c s + removals cs (perform c s)

  same_faults : (s s' : Store) → s'.faults ≡ s.faults → s'.seq ≡ s.seq → IsValid s → IsValid s'
  same_faults s s' f n v = record {
    is_dict = rw f v.is_dict;
    unused = λ m lt. rw f (v.unused m (omega arith));
  }

  remove-IsValid : (id : String) (s : Store) → IsValid s → IsValid (Faults.remove id s)
  unfolding Faults.remove
  remove-IsValid id s v = record {
    is_dict = retain-IsDict _ s.faults v.is_dict;
    unused = λ m lt. lookup-without id (fault_id m) s.faults (v.unused m lt);
  }

  perform-IsValid : (c : Command) {s : Store} → IsValid s → IsValid (perform c s)
  unfolding perform Faults.add Faults.heal Faults.ensure_proxies Faults.reset
  perform-IsValid (kill t) {s} v = Injects-IsValid "kill" t s _ (kill-Injects env t s) v
  perform-IsValid (partition t) {s} v =
      Injects-IsValid "partition" t s _ (partition-Injects env t s) v
  perform-IsValid (latency t ms jitter) {s} v =
      Injects-IsValid "latency" t s _ (latency-Injects env t s ms jitter) v
  perform-IsValid (heal t) {s} v = same_faults s _ refl refl v
  perform-IsValid (remove id) {s} v = remove-IsValid id s v
  perform-IsValid (add kind target detail) {s} v =
      let f = (Faults.add env kind target detail s).0 in
      Injects-IsValid kind target s (injected f, perform (add kind target detail) s)
        (refl, refl, refl, refl, refl, refl) v
  perform-IsValid ensure_proxies {s} v = same_faults s _ refl refl v
  perform-IsValid reset {s} v = same_faults s _ refl refl v

  balance :
      (c : Command) (s : Store)
      → IsValid s
      → length (perform c s).faults + removed c s ≡ length s.faults + count c s
  unfolding perform count removed Faults.add Faults.remove Faults.heal Faults.ensure_proxies
      Faults.reset
  balance (kill t) s v = omega (arith, Injects-length "kill" t s _ (kill-Injects env t s) v)
  balance (partition t) s v =
      omega (arith, Injects-length "partition" t s _ (partition-Injects env t s) v)
  balance (latency t ms jitter) s v =
      omega (arith, Injects-length "latency" t s _ (latency-Injects env t s ms jitter) v)
  balance (heal t) s v = refl
  balance (remove id) s v = omega (arith, length-without id s.faults v.is_dict)
  balance (add kind target detail) s v =
      let f = (Faults.add env kind target detail s).0 in
      omega (
        arith,
        Injects-length kind target s (injected f, perform (add kind target detail) s)
            (refl, refl, refl, refl, refl, refl) v,
      )
  balance ensure_proxies s v = refl
  balance reset s v = refl

  perform_all_counts :
      (cs : List Command) (s : Store)
      → IsValid s
      → IsDict (perform_all cs s).faults
        × (length (perform_all cs s).faults + removals cs s ≡ length s.faults + injections cs s)
  unfolding perform_all injections removals
  perform_all_counts [] s v = (v.is_dict, refl)
  perform_all_counts (c ∷ cs) s v =
      let later = perform_all_counts cs (perform c s) (perform-IsValid c v) in
      (later.0, omega (arith, later.1, balance c s v))

-- After any calls of a new store's methods, the faults have distinct identifiers, and `Active` and the
-- faults that `Remove` has taken out come to the injections that have succeeded since the start: neither
-- healing nor resetting lowers it.
pub active_counts_injections :
    (env : Env) (c : Client) (cs : List Command)
    → IsDict (perform_all env cs (new_store c)).faults
      × (active (perform_all env cs (new_store c)) + removals env cs (new_store c)
          ≡ injections env cs (new_store c))
unfolding active
active_counts_injections env c cs =
    let (d, n) = perform_all_counts env cs (new_store c) (new_store-IsValid c) in
    (d, omega (arith, n, no_faults c))
