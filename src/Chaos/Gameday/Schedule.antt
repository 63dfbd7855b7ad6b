-- ===== src/Chaos/Gameday/Schedule.antt =====
-- The plan of a game day, `Plan` of chaosd/internal/gameday/gameday.go.
use llms_chaos.Prelude.{
  ℕ, zero, suc, ◌+◌, ◌*◌, ◌<◌, ◌≡◌, refl, sym, subst, true, false, Bool-cases, if_elim, ◌⊎◌, inl,
  inr, String, List, [], ◌∷◌, some, arith, length, get_elem?, get_elem?_total,
}
use llms_chaos.Prelude.Int.{ℤ, pos_part, pos, negsuc, leb_ℤ}
use llms_chaos.Chaos.Gameday.{
  Config, Event, with_defaults, plan, plan_rounds, if_empty, if_not_positive, Panic, too_large,
  or_out_of_range,
}

-- `Intn` gives a number below its bound, if that is positive.
abbrev pub InRange : (ℤ → ℕ → ℕ → ℕ) → Type 0
InRange draw = (seed : ℤ) (call bound : ℕ) → 0 < bound → draw seed call bound < bound

abbrev pub Among {ℓ} : {A : Type ℓ} → A → List A → Type ℓ
Among x xs = (i : ℕ) × (get_elem? xs i ≡ some x)

-- Of those that a configuration gives, or of the default ones where it gives none.
abbrev pub AmongGiven : String → List String → List String → Type 0
AmongGiven x [] defaults = Among x defaults
AmongGiven x (y ∷ ys) defaults = Among x (y ∷ ys)

-- The rounds of the configuration, or 6 where it gives none.
abbrev pub CountsRounds : ℤ → ℕ → Type 0
CountsRounds (pos zero) n = n ≡ 6
CountsRounds (pos (suc k)) n = n ≡ suc k
CountsRounds (negsuc k) n = n ≡ 6

-- Events numbered from the one behind `i`, with workers and kinds that the configuration allows.
abbrev pub IsPlan : Config → ℕ → List Event → Type 0
IsPlan cfg i [] = Unit
IsPlan cfg i (e ∷ events) =
    (e.round ≡ i + 1)
    × AmongGiven e.worker cfg.workers ("worker-1" ∷ "worker-2" ∷ "worker-3" ∷ [])
    × AmongGiven e.kind cfg.kinds ("kill" ∷ "latency" ∷ "partition" ∷ [])
    × IsPlan cfg (i + 1) events

given : (x : String) (xs d : List String) → Among x (if_empty xs d) → AmongGiven x xs d
given x [] d h = h
given x (y ∷ ys) d h = h

counts_rounds : (r : ℤ) → CountsRounds r (pos_part (if_not_positive r (pos 6)))
counts_rounds (pos zero) = refl
counts_rounds (pos (suc k)) = ground arith
counts_rounds (negsuc k) = ground arith

if_empty_pos : (xs : List String) (x : String) (d : List String) → 0 < length (if_empty xs (x ∷ d))
if_empty_pos [] x d = omega arith
if_empty_pos (y ∷ xs) x d = omega arith

module _ (draw : ℤ → ℕ → ℕ → ℕ) (room : ℤ) (in_range : InRange draw) (cfg : Config) where
  plan_rounds_total :
      (more i : ℕ)
      → (events : List Event) × (plan_rounds draw room (with_defaults cfg) more i ≡ some events)
        × IsPlan cfg i events
        × (length events ≡ more)
  unfolding plan_rounds with_defaults
  plan_rounds_total zero i = ([], refl, tt, refl)
  plan_rounds_total (suc more) i =
      let c = with_defaults cfg in
      let (worker, found_w) =
        get_elem?_total c.workers (draw c.seed (2 * i) (length c.workers))
          (in_range c.seed (2 * i) (length c.workers) (if_empty_pos cfg.workers _ _)) in
      let (kind, found_k) =
        get_elem?_total c.kinds (draw c.seed (2 * i + 1) (length c.kinds))
          (in_range c.seed (2 * i + 1) (length c.kinds) (if_empty_pos cfg.kinds _ _)) in
      let (rest, e, planned, n) = plan_rounds_total more (i + 1) in
      (
        record { round = i + 1; worker = worker; kind = kind; at = pos 0 } ∷ rest,
        rw (found_w, found_k, e) refl,
        (
          refl,
          given worker cfg.workers _ (_, found_w),
          given kind cfg.kinds _ (_, found_k),
          planned,
        ),
        omega (arith, n),
      )

-- What a plan comes to: events, or the panic of `make` at more rounds than it has room for.
abbrev pub Plans : ℤ → Config → Panic ⊎ List Event → Type 0
Plans room cfg (inr events) = IsPlan cfg 0 events × CountsRounds cfg.rounds (length events)
Plans room cfg (inl (too_large n)) = (n ≡ cfg.rounds) × (leb_ℤ n room ≡ false)
Plans room cfg (inl panic) = ⊥

too_many :
    (r room : ℤ)
    → leb_ℤ (pos 6) room ≡ true
    → leb_ℤ (if_not_positive r (pos 6)) room ≡ false
    → (if_not_positive r (pos 6) ≡ r) × (leb_ℤ (if_not_positive r (pos 6)) room ≡ false)
too_many r room h over = elim (Bool-cases (leb_ℤ r (pos 0))) [
  | inl none_given ↦ ground (arith, none_given)
  | inr positive ↦ (rw positive refl, over)
]

-- With numbers of `Intn` below their bounds, a plan never reads out of range. It panics only if the
-- configuration asks for more rounds than `make` has room for, of which six at least are taken for
-- granted. Otherwise it has as many events as the configuration has rounds, six if that is not positive,
-- numbered from 1; each worker and each kind is one of the configuration's, or, where it gives none, one
-- of `worker-1` to `worker-3` and one of `kill`, `latency` and `partition`.
pub plan-Plans :
    (draw : ℤ → ℕ → ℕ → ℕ) (room : ℤ) (cfg : Config)
    → InRange draw
    → leb_ℤ (pos 6) room ≡ true
    → Plans room cfg (plan draw room cfg)
unfolding plan with_defaults
plan-Plans draw room cfg in_range six =
    let rounds = if_not_positive cfg.rounds (pos 6) in
    let (events, e, planned, n) = plan_rounds_total draw room in_range cfg (pos_part rounds) 0 in
    if_elim (Plans room cfg) (leb_ℤ rounds room)
      (or_out_of_range (plan_rounds draw room (with_defaults cfg) (pos_part rounds) 0))
      (inl (too_large rounds))
      (λ _. rw e (planned, subst (CountsRounds cfg.rounds) (sym n) (counts_rounds cfg.rounds)))
      (too_many cfg.rounds room six)
